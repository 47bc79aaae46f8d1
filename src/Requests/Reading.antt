-- ===== src/Requests/Reading.antt =====
-- `ReadRequest` of http/request.go, with `fixPragmaCacheControl` of http/response.go. The parser of
-- URLs is Go's package "url", an argument.
use go_http.Prelude.{
  ℕ, suc, Bool, false, ◌&&◌, List, [], ◌∷◌, Option, none, some, Bytes, codes, str_eq, is_empty,
  index_byte, take, drop, if◌then◌else◌,
}
use go_http.Errors.{unexpected_eof, bad_string}
use go_http.Header.{Header, lookup, assign, get, del}
use go_http.Transfer.{Outcome, ok, err, panics, ◌>>=◌}
use go_http.Transfer.Writer.{is_none}
use go_http.Transfer.Reader.{Transferred, request_head, read_transfer}
use go_http.Mime.{text_line, read_mime_header}
use go_http.Version.{parse_http_version}
use go_http.Requests.{Url, Request}

-- `hp[0] == "no-cache"` of a key that is there and has a value
abbrev has_no_cache : Option (List Bytes) → Bool
has_no_cache (some (v ∷ vs)) = str_eq v (codes "no-cache")
has_no_cache _ = false

-- `fixPragmaCacheControl`
unfoldable pub fix_pragma_cache_control : Header → Header
fix_pragma_cache_control h =
    if has_no_cache (lookup (codes "Pragma") h) && is_none (lookup (codes "Cache-Control") h)
    then assign (codes "Cache-Control") (codes "no-cache" ∷ []) h
    else h

-- the text in front of the first blank, and the text behind it
unfoldable pub cut_blank : Bytes → Option (Bytes × Bytes)
unfolding index_byte
cut_blank s = elim (index_byte b' ' s) [ none ↦ none | some i ↦ some (take i s, drop (suc i) s) ]

-- `strings.SplitN(s, " ", 3)`, if it has three parts
unfoldable pub split_request_line : Bytes → Option (Bytes × Bytes × Bytes)
unfolding cut_blank
split_request_line s = elim (cut_blank s) [
  | none ↦ none
  | some (method, rest) ↦ elim (cut_blank rest) [
    | none ↦ none
    | some (rawurl, proto) ↦ some (method, rawurl, proto)
  ]
]

-- the request from its parts
unfoldable pub build_request :
    Bytes → Url → Bytes → ℕ → ℕ → Bytes → Header × Outcome Transferred → Outcome Request
build_request method url proto major minor host (h, panics) = panics
build_request method url proto major minor host (h, err e) = err e
build_request method url proto major minor host (h, ok t) = ok (record {
  method = method;
  url = url;
  proto = proto;
  proto_major = major;
  proto_minor = minor;
  header = h;
  body = t.body;
  content_length = t.content_length;
  transfer_encoding = t.transfer_encoding;
  close = t.close;
  host = host;
  trailer = t.trailer;
})

-- the part behind the header
unfoldable pub finish_header : Bytes → Url → Bytes → ℕ → ℕ → Header × Bytes → Outcome Request
unfolding build_request fix_pragma_cache_control read_transfer
finish_header method url proto major minor (h, wire) =
    let host = if is_empty url.host then get h (codes "Host") else url.host in
    let fixed = fix_pragma_cache_control (del h (codes "Host")) in
    build_request method url proto major minor host
      (read_transfer (request_head major minor) fixed wire)

-- the part behind the request line
unfoldable pub read_after_line :
    (Bytes → Outcome Url) → Bytes × Bytes × Bytes → Bytes → Outcome Request
unfolding finish_header parse_http_version
read_after_line parse_url (method, rawurl, proto) wire = elim (parse_http_version proto) [
  | none ↦ err (bad_string (codes "malformed HTTP version") proto)
  | some (major, minor) ↦ parse_url rawurl >>= λ url.
      read_mime_header wire >>= λ h. finish_header method url proto major minor h
]

-- `ReadRequest`; the bytes behind the header are those of the body's reader
unfoldable pub read_request : (Bytes → Outcome Url) → Bytes → Outcome Request
unfolding read_after_line split_request_line text_line
read_request parse_url wire = elim (text_line wire) [
  | none ↦ err unexpected_eof
  | some (s, rest) ↦ elim (split_request_line s) [
    | none ↦ err (bad_string (codes "malformed HTTP request") s)
    | some f ↦ read_after_line parse_url f rest
  ]
]
