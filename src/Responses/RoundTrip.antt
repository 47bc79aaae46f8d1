-- ===== src/Responses/RoundTrip.antt =====
-- What `ReadResponse` (http/response.go) gets of what `Response.Write` writes.
use go_http.Prelude.{
  ℕ, ◌≤◌, ◌<◌, ◌^◌, ◌≡◌, refl, sym, ap, ◌∙◌, false, List, [], ◌∷◌, ◌++◌, none, some, Bytes, arith,
  All, All-append, Lacks, ◌==◌, append_assoc, map, upper, if◌then◌else◌,
}
use go_http.Int.{ℤ, pos}
use go_http.Strconv.{itoa64, atoi64, digit_char}
use go_http.Strconv.Laws.{uitob64-All, atoi64-itoa64}
use go_http.Header.{Header, index, write_subset, is_excluded}
use go_http.Chunked.{crlf}
use go_http.Transfer.{ok, ◌>>=◌}
use go_http.Transfer.Writer
use go_http.Transfer.Writer.{Message, TransferWriter, response, new_transfer_writer, write_body}
use go_http.Mime.{text_line, read_mime_header}
use go_http.Mime.Fields.{text_line-line}
use go_http.Mime.Headers.{
  FieldLine, IsLine, IsField, lines_text, lines_text-append, append_lines, clean,
}
use go_http.Mime.Values.{
  line_values, read_mime_header-lines, subset_lines, write_subset-text, subset_lines-IsLine,
  Distinct,
}
use go_http.Version.{parse_http_version}
use go_http.Version.Printed.{parse_http_version-printed}
use go_http.Requests.Writing.{or_fail}
use go_http.Requests.Lines.{framing_lines, framing_lines-IsLine, write_header-text}
use go_http.Requests.RoundTrip.{cut_blank-word}
use go_http.Transfer.Reader.{body_reader}
use go_http.Transfer.Announced.{HasBody}
use go_http.Responses.Finished.{Declares, kept_keys, finish_response-Declares}
use go_http.Responses.{
  Received, Answer, read_response, read_after_status, finish_response, split_status_line,
  write_response, status_line, reason_of, proto_text, resp_exclude_header, method_of,
}

-- A byte that is neither a blank nor a line feed.
IsSolid : ℕ → Type 0
IsSolid c = ((c == b' ') ≡ false) × ((c == b'\n') ≡ false)

digit_char-IsSolid : (d : ℕ) → d < 10 → IsSolid (digit_char d)
unfolding IsSolid digit_char
digit_char-IsSolid d h = ground arith

itoa64-IsSolid : (n : ℕ) → All IsSolid (itoa64 (pos n))
unfolding itoa64
itoa64-IsSolid n = uitob64-All 10 (omega arith) IsSolid digit_char-IsSolid n

All-Lacks : (s : Bytes) → All IsSolid s → Lacks b' ' s × Lacks b'\n' s
unfolding IsSolid
All-Lacks [] h = (tt, tt)
All-Lacks (c ∷ s) h = let (blank, line) = All-Lacks s h.1 in ((h.0.0, blank), (h.0.1, line))

proto_text-IsSolid : (major minor : ℕ) → All IsSolid (proto_text major minor)
unfolding IsSolid
proto_text-IsSolid major minor = (
  (refl, refl),
  (
    (refl, refl),
    (
      (refl, refl),
      (
        (refl, refl),
        (
          (refl, refl),
          All-append IsSolid (itoa64 (pos major)) (b'.' ∷ itoa64 (pos minor)) (itoa64-IsSolid major)
              ((refl, refl), itoa64-IsSolid minor),
        ),
      ),
    ),
  ),
)

-- The three parts of a status line.
split_status_line-words :
    (proto code reason : Bytes)
    → Lacks b' ' proto
    → Lacks b' ' code
    → split_status_line (proto ++ (b' ' ∷ (code ++ (b' ' ∷ reason)))) ≡ some (proto, code, reason)
unfolding split_status_line
split_status_line-words proto code reason h k =
    rw (cut_blank-word proto (code ++ (b' ' ∷ reason)) h, split_status_line)
      (rw (cut_blank-word code reason k, split_status_line))

read_response_step :
    (method wire s rest : Bytes) (f : Bytes × Bytes × Bytes)
    → text_line wire ≡ some (s, rest)
    → split_status_line s ≡ some f
    → read_response (some method) wire ≡ read_after_status (map upper method) f rest
unfolding read_response
read_response_step method wire s rest f e k = rw (e, read_response) (rw (k, read_response))

read_after_status_step :
    (method proto code reason wire rest : Bytes) (n : ℤ) (major minor : ℕ) (g : Header)
    → atoi64 code ≡ some n
    → parse_http_version proto ≡ some (major, minor)
    → read_mime_header wire ≡ ok (g, rest)
    → read_after_status method (proto, code, reason) wire
      ≡ finish_response (code ++ (b' ' ∷ reason)) n proto major minor method (g, rest)
unfolding read_after_status
read_after_status_step method proto code reason wire rest n major minor g number version e =
    rw (number, read_after_status)
      (rw (version, read_after_status)
        (ap (λ o. o >>= λ x. finish_response (code ++ (b' ' ∷ reason)) n proto major minor method x)
          e))

-- A status line and header lines are read.
read_response-lines :
    (method reason wire : Bytes) (n major minor : ℕ) (ls : List FieldLine)
    → n < 2 ^ 63
    → major ≤ 1000000
    → minor ≤ 1000000
    → Lacks b'\n' reason
    → All IsLine ls
    → read_response (some method) (
        (proto_text major minor ++ (b' ' ∷ (itoa64 (pos n) ++ (b' ' ∷ (reason ++ crlf)))))
        ++ (lines_text ls ++ (crlf ++ wire)))
      ≡ finish_response
          (itoa64 (pos n) ++ (b' ' ∷ reason))
          (pos n)
          (proto_text major minor)
          major
          minor
          (map upper method)
          (append_lines ls [], wire)
read_response-lines method reason wire n major minor ls h a i clear lines =
    let code = itoa64 (pos n) in
    let proto = proto_text major minor in
    let s = proto ++ (b' ' ∷ (code ++ (b' ' ∷ reason))) in
    let rest = lines_text ls ++ (crlf ++ wire) in
    let shape : (proto ++ (b' ' ∷ (code ++ (b' ' ∷ (reason ++ crlf))))) ++ rest
        ≡ s ++ (crlf ++ rest) =
      simp append_assoc in
    let (proto_blank, proto_line) = All-Lacks proto (proto_text-IsSolid major minor) in
    let (code_blank, code_line) = All-Lacks code (itoa64-IsSolid n) in
    ap (read_response (some method)) shape
    ∙ read_response_step method (s ++ (crlf ++ rest)) s rest (proto, code, reason)
        (text_line-line b'H' _ rest (
          All-append _ proto (b' ' ∷ (code ++ (b' ' ∷ reason))) proto_line
            (refl, All-append _ code (b' ' ∷ reason) code_line (refl, clear))))
        (split_status_line-words proto code reason proto_blank code_blank)
    ∙ read_after_status_step (map upper method) proto code reason rest wire (pos n) major minor
        (append_lines ls []) (atoi64-itoa64 n h).0
        (unfold itoa64 in parse_http_version-printed major minor a i)
        (read_mime_header-lines ls wire lines)

-- What `Response.Write` writes is a status line and header lines, then the body.
write_response-text :
    (r : Answer) (t : TransferWriter) (body : Bytes)
    → new_transfer_writer (response (method_of r.request_method) r.message) ≡ ok t
    → t.trailer ≡ none
    → write_body t ≡ (body, none)
    → write_response r
      ≡ ok (
          status_line r
          ++ (lines_text (framing_lines t ++ subset_lines r.header resp_exclude_header)
              ++ (crlf ++ body)))
unfolding write_response
write_response-text r t body e n b =
    let text = λ (framing body : Bytes).
      status_line r ++ (framing ++ (write_subset r.header resp_exclude_header ++ (crlf ++ body))) in
    ap
      (λ o. o >>= λ tw. or_fail (Writer.write_header tw) >>= λ framing.
        or_fail (write_body tw) >>= λ x. ok (text framing x))
      e
    ∙ ap (λ o. or_fail o >>= λ framing. or_fail (write_body t) >>= λ x. ok (text framing x))
        (write_header-text t n)
    ∙ ap (λ o. or_fail o >>= λ x. ok (text (lines_text (framing_lines t)) x)) b
    ∙ ap (λ u. ok (status_line r ++ (lines_text (framing_lines t) ++ (u ++ (crlf ++ body)))))
        (write_subset-text r.header resp_exclude_header)
    ∙ ap (λ u. ok (status_line r ++ u))
        (sym (
            append_assoc (lines_text (framing_lines t))
              (lines_text (subset_lines r.header resp_exclude_header)) (crlf ++ body))
          ∙ ap (λ u. u ++ (crlf ++ body))
              (sym
                (lines_text-append (framing_lines t) (subset_lines r.header resp_exclude_header))))

-- what is read, with its parts in the order of `read_response-lines`
written_shape :
    (method proto reason : Bytes) (code : ℤ) (n : ℕ) (ls : List FieldLine) (body more : Bytes)
    → code ≡ pos n
    → read_response (some method) (
        ((proto ++ (b' ' ∷ (itoa64 code ++ (b' ' ∷ (reason ++ crlf)))))
          ++ (lines_text ls ++ (crlf ++ body)))
        ++ more)
      ≡ read_response (some method) (
          (proto ++ (b' ' ∷ (itoa64 (pos n) ++ (b' ' ∷ (reason ++ crlf)))))
          ++ (lines_text ls ++ (crlf ++ (body ++ more))))
written_shape method proto reason code n ls body more e =
    let line = λ (z : ℤ). proto ++ (b' ' ∷ (itoa64 z ++ (b' ' ∷ (reason ++ crlf)))) in
    ap (λ z. read_response (some method) ((line z ++ (lines_text ls ++ (crlf ++ body))) ++ more)) e
    ∙ ap (read_response (some method)) (
        append_assoc (line (pos n)) (lines_text ls ++ (crlf ++ body)) more
        ∙ ap (λ u. line (pos n) ++ u) (append_assoc (lines_text ls) (crlf ++ body) more))

-- A response that is written is read: with a request, a code and a method whose response has a body, a
-- code that is not negative, numbers of the version of a million at most, a reason with no line feed,
-- header keys that are clean, no trailer, and a body that is written with no error and whose end is
-- declared, by chunks or by a length of 63 bits that is not negative and is sent, `Response.Write`
-- succeeds, and so does `ReadResponse` on what it writes, whatever follows. It finds the version, the
-- code, as its status the code, a blank and the reason that was written, and a body whose reader stands
-- on the bytes of the body and reads chunks or as many bytes as were declared. Its header has, under each
-- key but Connection, Cache-Control and the two of the framing, the values of the framing lines, then
-- those of the header that was sent, with line breaks and outer white space cut, but none under the keys
-- that `Response.Write` handles itself.
pub read_response-write :
    (r : Answer) (t : TransferWriter) (asked method body more : Bytes) (n : ℕ)
    → r.request_method ≡ some asked
    → r.status_code ≡ pos n
    → n < 2 ^ 63
    → r.message.proto_major ≤ 1000000
    → r.message.proto_minor ≤ 1000000
    → Lacks b'\n' (reason_of r)
    → new_transfer_writer (response (some (map upper asked)) r.message) ≡ ok t
    → t.trailer ≡ none
    → write_body t ≡ (body, none)
    → HasBody n (map upper method)
    → Declares t
    → All IsField r.header
    → Distinct r.header
    → (text : Bytes) × (q : Received) × (write_response r ≡ ok text)
      × (read_response (some method) (text ++ more) ≡ ok q)
      × (q.status ≡ itoa64 (pos n) ++ (b' ' ∷ reason_of r))
      × (q.status_code ≡ pos n)
      × (q.proto ≡ proto_text r.message.proto_major r.message.proto_minor)
      × (q.body.reader ≡ body_reader t.transfer_encoding t.content_length false (body ++ more))
      × ((j : Bytes)
          → is_excluded kept_keys j ≡ false
          → index q.header j
            ≡ line_values j (framing_lines t)
              ++ (if is_excluded resp_exclude_header j then [] else map clean (index r.header j)))
unfolding status_line
read_response-write r t asked method body more n m code h a i clear e none_left b has_body declared
      fields distinct =
    let sent = subset_lines r.header resp_exclude_header in
    let ls = framing_lines t ++ sent in
    let lines : All IsLine ls =
      All-append IsLine (framing_lines t) sent (framing_lines-IsLine t)
        (subset_lines-IsLine r.header resp_exclude_header fields) in
    let major = r.message.proto_major in
    let minor = r.message.proto_minor in
    let read_back =
      read_response-lines method (reason_of r) (body ++ more) n major minor ls h a i clear lines in
    let (q, finished, status, number, proto, reader, values) =
      finish_response-Declares (itoa64 (pos n) ++ (b' ' ∷ reason_of r)) (proto_text major minor) n
        major minor (map upper method) r t (body ++ more) distinct has_body declared in
    (
      status_line r ++ (lines_text ls ++ (crlf ++ body)),
      q,
      write_response-text r t body
          (ap (λ o. new_transfer_writer (response (method_of o) r.message)) m ∙ e) none_left b,
      written_shape method (proto_text major minor) (reason_of r) r.status_code n ls body more code
          ∙ read_back
          ∙ finished,
      status,
      number,
      proto,
      reader,
      values,
    )
