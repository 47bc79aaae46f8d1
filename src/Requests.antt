-- ===== src/Requests.antt =====
-- http/request.go: the request that a server reads or a client sends. The type `url.URL` of Go's
-- package "url" is the record of its fields that the code reads.
pub mod Reading
pub mod Writing
pub mod Lines
pub mod Framed
pub mod Finished
pub mod RoundTrip
mod Tests
use go_http.Prelude.{
  ℕ, Bool, false, not, ◌||◌, List, Option, Bytes, codes, str_eq, contains, to_lower, ◌==◌,
  if◌then◌else◌,
}
use go_http.Int.{ℤ}
use go_http.Header.{Header, get}
use go_http.Transfer.{proto_at_least}
use go_http.Transfer.Body.{Body}

-- `url.URL`
pub record Url : Type 0 where
  pub scheme : Bytes
  pub host : Bytes
  pub path : Bytes
  pub raw_path : Bytes
  pub raw_query : Bytes

-- `Request`, as the server gets it
pub record Request : Type 0 where
  pub method : Bytes
  pub url : Url
  pub proto : Bytes
  pub proto_major : ℕ
  pub proto_minor : ℕ
  pub header : Header
  pub body : Body
  pub content_length : ℤ
  pub transfer_encoding : List Bytes
  pub close : Bool
  pub host : Bytes
  pub trailer : Option Header

-- `Request.ProtoAtLeast`
abbrev pub at_least : Request → ℕ → ℕ → Bool
at_least r major minor = proto_at_least r.proto_major r.proto_minor major minor

-- `Request.expectsContinue`
unfoldable pub expects_continue : Request → Bool
expects_continue r = str_eq (to_lower (get r.header (codes "Expect"))) (codes "100-continue")

-- `Request.wantsHttp10KeepAlive`
unfoldable pub wants_http10_keep_alive : Request → Bool
wants_http10_keep_alive r =
    if not (r.proto_major == 1) || not (r.proto_minor == 0)
    then false
    else contains (to_lower (get r.header (codes "Connection"))) (codes "keep-alive")
