-- ===== src/Responses.antt =====
-- http/response.go: `ReadResponse` and `Response.Write`. An error in the middle of a write is the
-- result; what has been written by then is left out.
pub mod Finished
pub mod RoundTrip
mod Tests
use go_http.Prelude.{
  ℕ, Bool, true, false, List, [], ◌∷◌, ◌++◌, Option, none, some, Bytes, codes, is_empty, map, upper,
  if◌then◌else◌,
}
use go_http.Int.{ℤ, pos, negsuc}
use go_http.Strconv.{itoa64, atoi64}
use go_http.Errors.{Error, unexpected_eof, bad_string}
use go_http.Status.{status_texts, text_in}
use go_http.Header.{Header, write_subset}
use go_http.Chunked.{crlf}
use go_http.Transfer.{Outcome, ok, err, panics, ◌>>=◌}
use go_http.Transfer.Body.{Body}
use go_http.Transfer.Writer
use go_http.Transfer.Writer.{Message, response, new_transfer_writer, write_body}
use go_http.Transfer.Reader.{Transferred, response_head, read_transfer}
use go_http.Mime.{text_line, read_mime_header}
use go_http.Version.{parse_http_version}
use go_http.Requests.Reading.{cut_blank, fix_pragma_cache_control}
use go_http.Requests.Writing.{or_fail}

-- a `Response` that has been read
pub record Received : Type 0 where
  pub status : Bytes
  pub status_code : ℤ
  pub proto : Bytes
  pub proto_major : ℕ
  pub proto_minor : ℕ
  pub header : Header
  pub body : Body
  pub content_length : ℤ
  pub transfer_encoding : List Bytes
  pub close : Bool
  pub trailer : Option Header
  pub request_method : Bytes

-- a `Response` that is to be written; `request_method` is that of its request, if it has one
pub record Answer : Type 0 where
  pub message : Message
  pub status : Bytes
  pub status_code : ℤ
  pub header : Header
  pub request_method : Option Bytes

-- the reason phrase may be missing
abbrev pub or_alone : Bytes → Option (Bytes × Bytes) → Bytes × Bytes
or_alone s none = (s, [])
or_alone s (some f) = f

-- `strings.SplitN(line, " ", 3)`, if it has two parts; a third that is missing is empty
unfoldable pub split_status_line : Bytes → Option (Bytes × Bytes × Bytes)
unfolding cut_blank
split_status_line line = elim (cut_blank line) [
  | none ↦ none
  | some (proto, rest) ↦
      let (code, reason) = or_alone rest (cut_blank rest) in some (proto, code, reason)
]

-- A negative code is none of those that the framing of a message asks for, as 0 is.
abbrev pub natural : ℤ → ℕ
natural (pos n) = n
natural (negsuc n) = 0

-- the response from its parts
unfoldable pub build_response :
    Bytes → ℤ → Bytes → ℕ → ℕ → Bytes → Header × Outcome Transferred → Outcome Received
build_response status code proto major minor method (h, panics) = panics
build_response status code proto major minor method (h, err e) = err e
build_response status code proto major minor method (h, ok t) = ok (record {
  status = status;
  status_code = code;
  proto = proto;
  proto_major = major;
  proto_minor = minor;
  header = h;
  body = t.body;
  content_length = t.content_length;
  transfer_encoding = t.transfer_encoding;
  close = t.close;
  trailer = t.trailer;
  request_method = method;
})

-- the part behind the header
unfoldable pub finish_response :
    Bytes → ℤ → Bytes → ℕ → ℕ → Bytes → Header × Bytes → Outcome Received
unfolding build_response fix_pragma_cache_control read_transfer
finish_response status code proto major minor method (h, wire) =
    build_response status code proto major minor method (
      read_transfer (response_head (natural code) (some method) major minor)
        (fix_pragma_cache_control h) wire)

-- the part behind the status line
unfoldable pub read_after_status : Bytes → Bytes × Bytes × Bytes → Bytes → Outcome Received
unfolding finish_response parse_http_version atoi64
read_after_status method (proto, code, reason) wire = elim (atoi64 code) [
  | none ↦ err (bad_string (codes "malformed HTTP status code") code)
  | some n ↦ elim (parse_http_version proto) [
    | none ↦ err (bad_string (codes "malformed HTTP version") proto)
    | some (major, minor) ↦ read_mime_header wire >>= λ h.
        finish_response (code ++ (b' ' ∷ reason)) n proto major minor method h
  ]
]

-- `ReadResponse`, for the request of a method, from the bytes to come
unfoldable pub read_response : Option Bytes → Bytes → Outcome Received
unfolding read_after_status split_status_line text_line
read_response none wire = panics
read_response (some method) wire = elim (text_line wire) [
  | none ↦ err unexpected_eof
  | some (line, rest) ↦ elim (split_status_line line) [
    | none ↦ err (bad_string (codes "malformed HTTP response") line)
    | some f ↦ read_after_status (map upper method) f rest
  ]
]

-- `respExcludeHeader`
abbrev pub resp_exclude_header : List Bytes
resp_exclude_header = codes "Content-Length" ∷ codes "Transfer-Encoding" ∷ codes "Trailer" ∷ []

-- `statusText[resp.StatusCode]`
unfoldable pub code_text : ℤ → Option Bytes
unfolding text_in
code_text (pos n) = text_in n status_texts
code_text (negsuc n) = none

abbrev pub or_number : ℤ → Option Bytes → Bytes
or_number code none = codes "status code " ++ itoa64 code
or_number code (some text) = text

unfoldable pub reason_of : Answer → Bytes
unfolding code_text
reason_of r =
    if is_empty r.status then or_number r.status_code (code_text r.status_code) else r.status

abbrev pub proto_text : ℕ → ℕ → Bytes
proto_text major minor = codes "HTTP/" ++ (itoa64 (pos major) ++ (b'.' ∷ itoa64 (pos minor)))

unfoldable pub status_line : Answer → Bytes
unfolding reason_of
status_line r =
    proto_text r.message.proto_major r.message.proto_minor
    ++ (b' ' ∷ (itoa64 r.status_code ++ (b' ' ∷ (reason_of r ++ crlf))))

abbrev pub method_of : Option Bytes → Option Bytes
method_of none = none
method_of (some method) = some (map upper method)

-- `Response.Write`
unfoldable pub write_response : Answer → Outcome Bytes
unfolding status_line new_transfer_writer write_body
write_response r = do
  tw ← new_transfer_writer (response (method_of r.request_method) r.message)
  framing ← or_fail (Writer.write_header tw)
  body ← or_fail (write_body tw)
  ok (status_line r ++ (framing ++ (write_subset r.header resp_exclude_header ++ (crlf ++ body))))
