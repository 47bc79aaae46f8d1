-- ===== src/Requests/Writing.antt =====
-- `Request.Write` and `Request.WriteProxy` of http/request.go. `EncodedPath` of Go's package "url" is
-- an argument. An error in the middle is the result; what the buffered writer has sent by then is
-- left out.
use go_http.Prelude.{
  ℕ, Bool, false, List, [], ◌∷◌, ◌++◌, Option, none, some, Bytes, codes, is_empty, ◌==◌,
  if◌then◌else◌,
}
use go_http.Errors.{Error, text_error}
use go_http.Header.{Header, lookup, write_subset}
use go_http.Chunked.{crlf}
use go_http.Transfer.{Outcome, ok, err, panics, ◌>>=◌}
use go_http.Transfer.Writer
use go_http.Transfer.Writer.{Message, request, new_transfer_writer, write_body}
use go_http.Requests.{Url}

-- a `Request` that a client sends
pub record Outgoing : Type 0 where
  pub message : Message
  pub url : Option Url
  pub host : Bytes
  pub header : Header

-- `reqWriteExcludeHeader`
abbrev pub write_exclude_header : List Bytes
write_exclude_header =
    codes "Host"
    ∷ codes "User-Agent"
    ∷ codes "Content-Length"
    ∷ codes "Transfer-Encoding"
    ∷ codes "Trailer"
    ∷ []

-- `defaultUserAgent`
abbrev pub default_user_agent : Bytes
default_user_agent = codes "Go http package"

-- `valueOrDefault`
abbrev pub value_or_default : Bytes → Bytes → Bytes
value_or_default value def = if is_empty value then def else value

-- `strings.HasPrefix(s, "?")`, and whether a text begins with a slash
abbrev begins_with : ℕ → Bytes → Bool
begins_with b [] = false
begins_with b (c ∷ cs) = c == b

-- the URL where `RawPath` is empty
unfoldable pub build_url : (Url → Bytes) → Bool → Bytes → Url → Bytes
build_url encoded_path using_proxy host url =
    let path = value_or_default url.raw_path (value_or_default (encoded_path url) (codes "/")) in
    let full = if is_empty url.raw_query then path else path ++ (b'?' ∷ url.raw_query) in
    let rooted = if begins_with b'/' full then full else b'/' ∷ full in
    if using_proxy then url.scheme ++ (codes "://" ++ (host ++ rooted)) else full

unfoldable pub url_text : (Url → Bytes) → Bool → Bytes → Url → Bytes
unfolding build_url
url_text encoded_path using_proxy host url =
    if begins_with b'?' url.raw_path
    then b'/' ∷ url.raw_path
    else if is_empty url.raw_path
    then build_url encoded_path using_proxy host url
    else url.raw_path

-- the first value of the header's User-Agent, or the default
abbrev pub first_or_default : Option (List Bytes) → Bytes
first_or_default (some (v ∷ vs)) = v
first_or_default _ = default_user_agent

unfoldable pub user_agent_line : Header → Bytes
user_agent_line h =
    let agent = first_or_default (lookup (codes "User-Agent") h) in
    if is_empty agent then [] else codes "User-Agent: " ++ (agent ++ crlf)

unfoldable pub request_line : Bytes → Bytes → Bytes
request_line method url =
    value_or_default method (codes "GET") ++ (b' ' ∷ (url ++ (codes " HTTP/1.1" ++ crlf)))

abbrev pub or_fail : Bytes × Option Error → Outcome Bytes
or_fail (text, none) = ok text
or_fail (text, some e) = err e

-- the text behind the line with the host
unfoldable pub write_fields : Outgoing → Outcome Bytes
unfolding user_agent_line new_transfer_writer write_body
write_fields r = do
  tw ← new_transfer_writer (request r.message)
  framing ← or_fail (Writer.write_header tw)
  body ← or_fail (write_body tw)
  ok (
      user_agent_line r.header
      ++ (framing ++ (write_subset r.header write_exclude_header ++ (crlf ++ body))))

unfoldable pub write_to : (Url → Bytes) → Bool → Outgoing → Bytes → Url → Outcome Bytes
unfolding write_fields url_text request_line
write_to encoded_path using_proxy r host url = do
  rest ← write_fields r
  ok (
      request_line r.message.method (url_text encoded_path using_proxy host url)
      ++ ((codes "Host: " ++ (host ++ crlf)) ++ rest))

-- `Request.write`
unfoldable pub write_request : (Url → Bytes) → Bool → Outgoing → Outcome Bytes
unfolding write_to
write_request encoded_path using_proxy r = elim r.url [
  | none ↦
      if is_empty r.host
      then err (text_error (codes "http: Request.Write on Request with no Host or URL set"))
      else panics
  | some url ↦
      write_to encoded_path using_proxy r (if is_empty r.host then url.host else r.host) url
]
