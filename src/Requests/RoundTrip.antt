-- ===== src/Requests/RoundTrip.antt =====
-- What `ReadRequest` (http/request.go) gets of what `Request.Write` writes.
use go_http.Prelude.{
  ℕ, ◌≡◌, refl, sym, ap, ◌∙◌, Bool, false, List, [], ◌∷◌, ◌++◌, Option, none, some, Bytes, codes,
  All, All-append, Lacks, append_assoc, index_byte-append, take-length-append, drop-suc-append,
  is_empty, str_eq, all_bytes, if◌then◌else◌, map,
}
use go_http.Errors.{text_error}
use go_http.Header.{Header, lookup, index, canonical_header_key, is_excluded}
use go_http.Chunked.{crlf}
use go_http.Transfer.{Outcome, ok, err, panics, ◌>>=◌}
use go_http.Transfer.Writer.{TransferWriter, request, new_transfer_writer, write_body}
use go_http.Mime.{text_line, read_mime_header}
use go_http.Mime.Trimmed.{IsTrimmed}
use go_http.Mime.Fields.{text_line-line}
use go_http.Mime.Headers.{
  FieldLine, IsLine, IsField, lines_text, lines_text-append, append_lines, clean,
}
use go_http.Mime.Values.{
  line_values, read_mime_header-lines, subset_lines, subset_lines-IsLine, Distinct,
}
use go_http.Version.{parse_http_version}
use go_http.Transfer.Reader.{body_reader}
use go_http.Transfer.Found.{Announces}
use go_http.Requests.{Url, Request}
use go_http.Requests.Finished.{http11, read_keys, finish_header-Announces}
use go_http.Requests.Reading.{
  read_request, read_after_line, finish_header, split_request_line, cut_blank,
}
use go_http.Requests.Writing.{
  Outgoing, write_request, write_to, url_text, request_line, first_or_default, write_exclude_header,
}
use go_http.Requests.Lines.{
  agent_lines, framing_lines, sent_host, request_lines, known-IsLine, agent_lines-IsLine,
  framing_lines-IsLine, write_fields-text,
}

pub cut_blank-word :
    (s rest : Bytes) → Lacks b' ' s → cut_blank (s ++ (b' ' ∷ rest)) ≡ some (s, rest)
unfolding cut_blank
cut_blank-word s rest h =
    rw (index_byte-append b' ' s rest h, cut_blank)
      (rw (take-length-append s (b' ' ∷ rest), drop-suc-append s b' ' rest))

-- The three parts of a request line.
split_request_line-words :
    (method url proto : Bytes)
    → Lacks b' ' method
    → Lacks b' ' url
    → split_request_line (method ++ (b' ' ∷ (url ++ (b' ' ∷ proto)))) ≡ some (method, url, proto)
unfolding split_request_line
split_request_line-words method url proto h k =
    rw (cut_blank-word method (url ++ (b' ' ∷ proto)) h, split_request_line)
      (rw (cut_blank-word url proto k, split_request_line))

read_request_step :
    (parse_url : Bytes → Outcome Url) (wire s rest : Bytes) (f : Bytes × Bytes × Bytes)
    → text_line wire ≡ some (s, rest)
    → split_request_line s ≡ some f
    → read_request parse_url wire ≡ read_after_line parse_url f rest
unfolding read_request
read_request_step parse_url wire s rest f e k = rw (e, read_request) (rw (k, read_request))

read_after_line_step :
    (parse_url : Bytes → Outcome Url) (method rawurl wire rest : Bytes) (url : Url) (g : Header)
    → parse_url rawurl ≡ ok url
    → read_mime_header wire ≡ ok (g, rest)
    → read_after_line parse_url (method, rawurl, http11) wire
      ≡ finish_header method url http11 1 1 (g, rest)
unfolding read_after_line parse_http_version str_eq
read_after_line_step parse_url method rawurl wire rest url g e k =
    ap (λ o. o >>= λ u. read_mime_header wire >>= λ h. finish_header method u http11 1 1 h) e
    ∙ ap (λ o. o >>= λ h. finish_header method url http11 1 1 h) k

protocol_clean : Lacks b'\n' (b' ' ∷ http11)
protocol_clean = (refl, (refl, (refl, (refl, (refl, (refl, (refl, (refl, (refl, tt)))))))))

-- A request line and header lines are read.
pub read_request-lines :
    (parse_url : Bytes → Outcome Url) (c : ℕ) (method rawurl wire : Bytes) (url : Url)
    (ls : List FieldLine)
    → Lacks b' ' (c ∷ method)
    → Lacks b'\n' (c ∷ method)
    → Lacks b' ' rawurl
    → Lacks b'\n' rawurl
    → parse_url rawurl ≡ ok url
    → All IsLine ls
    → read_request parse_url (request_line (c ∷ method) rawurl ++ (lines_text ls ++ (crlf ++ wire)))
      ≡ finish_header (c ∷ method) url http11 1 1 (append_lines ls [], wire)
unfolding request_line
read_request-lines parse_url c method rawurl wire url ls mb mn ub un e lines =
    let s = method ++ (b' ' ∷ (rawurl ++ (b' ' ∷ http11))) in
    let rest = lines_text ls ++ (crlf ++ wire) in
    let shape : request_line (c ∷ method) rawurl ++ rest ≡ (c ∷ s) ++ (crlf ++ rest) =
      simp append_assoc in
    ap (read_request parse_url) shape
    ∙ read_request_step parse_url _ (c ∷ s) rest (c ∷ method, rawurl, http11)
        (text_line-line c s rest (
          All-append _ (c ∷ method) (b' ' ∷ (rawurl ++ (b' ' ∷ http11))) mn
            (refl, All-append _ rawurl (b' ' ∷ http11) un protocol_clean)))
        (split_request_line-words (c ∷ method) rawurl http11 mb ub)
    ∙ read_after_line_step parse_url (c ∷ method) rawurl rest wire url (append_lines ls []) e
        (read_mime_header-lines ls wire lines)

joined :
    (a f s : List FieldLine) (w : Bytes)
    → lines_text a ++ (lines_text f ++ (lines_text s ++ w)) ≡ lines_text (a ++ (f ++ s)) ++ w
joined a f s w = sym (
    ap (λ x. x ++ w)
      (lines_text-append a (f ++ s) ∙ ap (λ x. lines_text a ++ x) (lines_text-append f s))
    ∙ append_assoc (lines_text a) (lines_text f ++ lines_text s) w
    ∙ ap (λ x. lines_text a ++ x) (append_assoc (lines_text f) (lines_text s) w))

-- What `Request.Write` writes is a request line and header lines, then the body.
write_request-text :
    (encoded_path : Url → Bytes) (using_proxy : Bool) (r : Outgoing) (url : Url)
    (t : TransferWriter) (body : Bytes)
    → r.url ≡ some url
    → new_transfer_writer (request r.message) ≡ ok t
    → t.trailer ≡ none
    → write_body t ≡ (body, none)
    → write_request encoded_path using_proxy r
      ≡ ok (
          request_line r.message.method (url_text encoded_path using_proxy (sent_host r url) url)
          ++ (lines_text (request_lines r (sent_host r url) t) ++ (crlf ++ body)))
unfolding write_request write_to
write_request-text encoded_path using_proxy r url t body u e n b =
    let host = sent_host r url in
    let line = request_line r.message.method (url_text encoded_path using_proxy host url) in
    ap
      (λ (o : Option Url). elim o [
        | none ↦
            if is_empty r.host
            then err (text_error (codes "http: Request.Write on Request with no Host or URL set"))
            else panics
        | some x ↦
            write_to encoded_path using_proxy r (if is_empty r.host then x.host else r.host) x
      ])
      u
    ∙ ap (λ o. o >>= λ rest. ok (line ++ ((codes "Host: " ++ (host ++ crlf)) ++ rest)))
        (write_fields-text r t body e n b)
    ∙ ap (λ x. ok (line ++ ((codes "Host: " ++ (host ++ crlf)) ++ x)))
        (joined (agent_lines r.header) (framing_lines t)
          (subset_lines r.header write_exclude_header) (crlf ++ body))
    ∙ ap (λ x. ok (line ++ x))
        (sym (
          append_assoc (codes "Host: " ++ (host ++ crlf))
            (lines_text (
              agent_lines r.header
              ++ (framing_lines t ++ subset_lines r.header write_exclude_header)))
            (crlf ++ body)))

request_lines-IsLine :
    (r : Outgoing) (host : Bytes) (t : TransferWriter)
    → IsTrimmed host
    → Lacks b'\n' host
    → IsTrimmed (first_or_default (lookup (codes "User-Agent") r.header))
    → Lacks b'\n' (first_or_default (lookup (codes "User-Agent") r.header))
    → All IsField r.header
    → All IsLine (request_lines r host t)
unfolding all_bytes canonical_header_key
request_lines-IsLine r host t ht hl at al fields = (
  known-IsLine (codes "Host") host refl refl refl ht hl,
  All-append IsLine (agent_lines r.header) _ (agent_lines-IsLine r.header at al) (
      All-append IsLine (framing_lines t) _ (framing_lines-IsLine t)
        (subset_lines-IsLine r.header write_exclude_header fields)),
)

-- A request that is written is read: with a method and a URL that hold no blank and no line feed, a
-- host, a user agent and header keys that are clean, no trailer, a body that is written with no error
-- and that is announced by chunks or by a length of 63 bits that is not negative, `Request.Write`
-- succeeds, and so does `ReadRequest` on what it writes, whatever follows. It finds the method, the URL
-- as the parser reads it, the host that was sent unless that URL has one, and a body whose reader stands
-- on the bytes of the body and reads chunks or as many bytes as were announced. Its header has, under
-- each key but Host, Cache-Control and the two of the framing, the values of the lines that are added,
-- then those of the header that was sent, with line breaks and outer white space cut, but none under the
-- keys that `Request.Write` handles itself.
pub read_request-write :
    (encoded_path : Url → Bytes) (parse_url : Bytes → Outcome Url) (using_proxy : Bool)
    (r : Outgoing) (url parsed : Url) (t : TransferWriter) (c : ℕ) (method body more : Bytes)
    → r.url ≡ some url
    → r.message.method ≡ c ∷ method
    → Lacks b' ' (c ∷ method)
    → Lacks b'\n' (c ∷ method)
    → Lacks b' ' (url_text encoded_path using_proxy (sent_host r url) url)
    → Lacks b'\n' (url_text encoded_path using_proxy (sent_host r url) url)
    → parse_url (url_text encoded_path using_proxy (sent_host r url) url) ≡ ok parsed
    → new_transfer_writer (request r.message) ≡ ok t
    → t.trailer ≡ none
    → Announces t
    → write_body t ≡ (body, none)
    → IsTrimmed (sent_host r url)
    → Lacks b'\n' (sent_host r url)
    → IsTrimmed (first_or_default (lookup (codes "User-Agent") r.header))
    → Lacks b'\n' (first_or_default (lookup (codes "User-Agent") r.header))
    → All IsField r.header
    → Distinct r.header
    → (text : Bytes) × (q : Request) × (write_request encoded_path using_proxy r ≡ ok text)
      × (read_request parse_url (text ++ more) ≡ ok q)
      × (q.method ≡ c ∷ method)
      × (q.url ≡ parsed)
      × (q.host ≡ (if is_empty parsed.host then sent_host r url else parsed.host))
      × (q.body.reader ≡ body_reader t.transfer_encoding t.content_length false (body ++ more))
      × ((j : Bytes)
          → is_excluded read_keys j ≡ false
          → index q.header j
            ≡ line_values j
                ((codes "Host", sent_host r url) ∷ (agent_lines r.header ++ framing_lines t))
              ++ (if is_excluded write_exclude_header j then [] else map clean (index r.header j)))
read_request-write encoded_path parse_url using_proxy r url parsed t c method body more u m mb mn ub
      un p e n announced b ht hl at al fields distinct =
    let host = sent_host r url in
    let target = url_text encoded_path using_proxy host url in
    let ls = request_lines r host t in
    let lines : All IsLine ls = request_lines-IsLine r host t ht hl at al fields in
    let (q, finished, same_method, same_url, same_host, reader, values) =
      finish_header-Announces (c ∷ method) parsed r host t (body ++ more) distinct announced in
    (
      request_line r.message.method target ++ (lines_text ls ++ (crlf ++ body)),
      q,
      write_request-text encoded_path using_proxy r url t body u e n b,
      ap
            (λ x.
              read_request parse_url
                ((request_line x target ++ (lines_text ls ++ (crlf ++ body))) ++ more))
            m
          ∙ ap (read_request parse_url) (simp append_assoc)
          ∙ read_request-lines parse_url c method target (body ++ more) parsed ls mb mn ub un p
              lines
          ∙ finished,
      same_method,
      same_url,
      same_host,
      reader,
      values,
    )
