-- ===== src/Requests/Lines.antt =====
-- The header lines that `Request.Write` (http/request.go) puts in front of the header that is sent.
use go_http.Prelude.{
  ℕ, suc, ◌<◌, ◌≡◌, ◌≢◌, refl, sym, ap, ◌∙◌, inr, Bool, true, false, not, List, [], ◌∷◌, ◌++◌, none,
  Bytes, arith, codes, All, All-append, Lacks, Visible, EndsVisible-of_Visible, is_white, ◌==◌,
  append-nil, is_empty, all_bytes, ◌&&◌, if_intro, if◌then◌else◌,
}
use go_http.Int.{ℤ, pos, negsuc}
use go_http.Strconv.{itoa64, uitob64, digit_char}
use go_http.Strconv.Laws.{uitob64-All, uitob64-ne}
use go_http.Header.{Header, lookup, canonical_header_key, write_subset}
use go_http.Chunked.{crlf}
use go_http.Transfer.{ok, ◌>>=◌, chunked}
use go_http.Transfer.Writer
use go_http.Transfer.Writer.{
  Message, TransferWriter, request, new_transfer_writer, write_body, length_line,
  should_send_content_length,
}
use go_http.Mime.Trimmed.{IsTrimmed}
use go_http.Mime.Fields.{key_byte, IsKey-of}
use go_http.Mime.Headers.{FieldLine, IsLine, lines_text}
use go_http.Mime.Values.{subset_lines, write_subset-text}
use go_http.Requests.{Url}
use go_http.Requests.Writing.{
  Outgoing, write_fields, user_agent_line, first_or_default, or_fail, write_exclude_header,
}

-- The lines on the agent and on the framing.
abbrev pub agent_lines : Header → List FieldLine
agent_lines h =
    let agent = first_or_default (lookup (codes "User-Agent") h) in
    if is_empty agent then [] else (codes "User-Agent", agent) ∷ []

abbrev pub framing_lines : TransferWriter → List FieldLine
framing_lines t =
    (if t.close then (codes "Connection", codes "close") ∷ [] else [])
    ++ (if should_send_content_length t
        then (codes "Content-Length", itoa64 t.content_length) ∷ []
        else if chunked t.transfer_encoding
        then (codes "Transfer-Encoding", codes "chunked") ∷ []
        else [])

line-text :
    (b : Bool) (k u : Bytes)
    → (if b then [] else k ++ (codes ": " ++ (u ++ crlf)))
      ≡ lines_text (if b then [] else (k, u) ∷ [])
line-text true k u = refl
line-text false k u = sym (append-nil (k ++ (codes ": " ++ (u ++ crlf))))

framing-text :
    (close sized coded : Bool) (n : Bytes)
    → (if close then codes "Connection: close\r\n" else [])
        ++ ((if sized
              then codes "Content-Length: " ++ (n ++ codes "\r\n")
              else if coded
              then codes "Transfer-Encoding: chunked\r\n"
              else [])
            ++ [])
      ≡ lines_text (
          (if close then (codes "Connection", codes "close") ∷ [] else [])
          ++ (if sized
              then (codes "Content-Length", n) ∷ []
              else if coded
              then (codes "Transfer-Encoding", codes "chunked") ∷ []
              else []))
framing-text true true c n = simp append-nil
framing-text true false true n = simp append-nil
framing-text true false false n = simp append-nil
framing-text false true c n = simp append-nil
framing-text false false true n = simp append-nil
framing-text false false false n = simp append-nil

pub user_agent_line-text : (h : Header) → user_agent_line h ≡ lines_text (agent_lines h)
unfolding user_agent_line
user_agent_line-text h =
    let agent = first_or_default (lookup (codes "User-Agent") h) in
    line-text (is_empty agent) (codes "User-Agent") agent

pub write_header-text :
    (t : TransferWriter)
    → t.trailer ≡ none
    → Writer.write_header t ≡ (lines_text (framing_lines t), none)
unfolding Writer.write_header length_line Writer.write_trailer
write_header-text t e =
    let text = (if t.close then codes "Connection: close\r\n" else []) ++ (length_line t ++ []) in
    ap
      (λ o. (
        (if t.close then codes "Connection: close\r\n" else [])
            ++ (length_line t ++ (Writer.write_trailer o).0),
        (Writer.write_trailer o).1,
      ))
      e
    ∙ ap (λ x. (x, none))
        (framing-text t.close (should_send_content_length t) (chunked t.transfer_encoding)
          (itoa64 t.content_length))

-- A byte that is neither white space nor a line feed.
IsPlain : ℕ → Type 0
IsPlain c = (is_white c ≡ false) × ((c == b'\n') ≡ false)

plain-line : (s : Bytes) → s ≢ [] → All IsPlain s → IsTrimmed s × Lacks b'\n' s
unfolding IsPlain
plain-line [] ne h = absurd (ne refl)
plain-line (c ∷ s) ne h =
    (inr (h.0.0, EndsVisible-of_Visible (c ∷ s) ne (visible (c ∷ s) h)), clean_bytes (c ∷ s) h)
  where
    visible : (t : Bytes) → All IsPlain t → Visible t
    visible [] k = tt
    visible (d ∷ t) k = (k.0.0, visible t k.1)

    clean_bytes : (t : Bytes) → All IsPlain t → Lacks b'\n' t
    clean_bytes [] k = tt
    clean_bytes (d ∷ t) k = (k.0.1, clean_bytes t k.1)

digit_char-IsPlain : (d : ℕ) → d < 10 → IsPlain (digit_char d)
unfolding IsPlain digit_char is_white
digit_char-IsPlain d h = ground arith

minus-IsPlain : IsPlain b'-'
unfolding IsPlain is_white
minus-IsPlain = (refl, refl)

pub itoa64-line : (z : ℤ) → IsTrimmed (itoa64 z) × Lacks b'\n' (itoa64 z)
unfolding itoa64
itoa64-line (pos n) =
    plain-line (uitob64 n 10) (uitob64-ne 10 (omega arith) (omega arith) n)
      (uitob64-All 10 (omega arith) IsPlain digit_char-IsPlain n)
itoa64-line (negsuc n) =
    plain-line (b'-' ∷ uitob64 (suc n) 10) (λ e. cc)
      (minus-IsPlain, uitob64-All 10 (omega arith) IsPlain digit_char-IsPlain (suc n))

pub known-IsLine :
    (k u : Bytes)
    → is_empty k ≡ false
    → all_bytes key_byte k ≡ true
    → canonical_header_key k ≡ k
    → IsTrimmed u
    → Lacks b'\n' u
    → IsLine (k, u)
known-IsLine k u ne h c t l = (IsKey-of k ne h, c, t, l)

abbrev plain_byte : ℕ → Bool
plain_byte c = not (is_white c) && not (c == b'\n')

IsPlain-bytes : (t : Bytes) → all_bytes plain_byte t ≡ true → All IsPlain t
unfolding all_bytes IsPlain
IsPlain-bytes [] h = tt
IsPlain-bytes (c ∷ t) h = (ground arith, IsPlain-bytes t (ground arith))

word-line :
    (s : Bytes) → is_empty s ≡ false → all_bytes plain_byte s ≡ true → IsTrimmed s × Lacks b'\n' s
word-line [] e h = cc
word-line (c ∷ s) e h = plain-line (c ∷ s) (λ x. cc) (IsPlain-bytes (c ∷ s) h)

pub agent_lines-IsLine :
    (h : Header)
    → IsTrimmed (first_or_default (lookup (codes "User-Agent") h))
    → Lacks b'\n' (first_or_default (lookup (codes "User-Agent") h))
    → All IsLine (agent_lines h)
unfolding all_bytes canonical_header_key
agent_lines-IsLine h t l =
    let agent = first_or_default (lookup (codes "User-Agent") h) in
    let one : All IsLine ((codes "User-Agent", agent) ∷ []) =
      (known-IsLine (codes "User-Agent") agent refl refl refl t l, tt) in
    if_intro (All IsLine) (is_empty agent) tt one

pub framing_lines-IsLine : (t : TransferWriter) → All IsLine (framing_lines t)
unfolding all_bytes canonical_header_key is_white
framing_lines-IsLine t =
    let shut = word-line (codes "close") refl refl in
    let number = itoa64-line t.content_length in
    let coded = word-line (codes "chunked") refl refl in
    All-append IsLine (if t.close then (codes "Connection", codes "close") ∷ [] else []) _
      (if_intro (All IsLine) t.close
        (known-IsLine (codes "Connection") (codes "close") refl refl refl shut.0 shut.1, tt) tt)
      (if_intro (All IsLine) (should_send_content_length t)
        (
          known-IsLine (codes "Content-Length") (itoa64 t.content_length) refl refl refl number.0
              number.1,
          tt,
        )
        (if_intro (All IsLine) (chunked t.transfer_encoding)
          (
            known-IsLine (codes "Transfer-Encoding") (codes "chunked") refl refl refl coded.0
                coded.1,
            tt,
          )
          tt))

-- the host that is sent
abbrev pub sent_host : Outgoing → Url → Bytes
sent_host r url = if is_empty r.host then url.host else r.host

-- All the header lines of a request.
abbrev pub request_lines : Outgoing → Bytes → TransferWriter → List FieldLine
request_lines r host t =
    ((codes "Host", host) ∷ [])
    ++ (agent_lines r.header ++ (framing_lines t ++ subset_lines r.header write_exclude_header))

pub write_fields-text :
    (r : Outgoing) (t : TransferWriter) (body : Bytes)
    → new_transfer_writer (request r.message) ≡ ok t
    → t.trailer ≡ none
    → write_body t ≡ (body, none)
    → write_fields r
      ≡ ok (
          lines_text (agent_lines r.header)
          ++ (lines_text (framing_lines t)
              ++ (lines_text (subset_lines r.header write_exclude_header) ++ (crlf ++ body))))
unfolding write_fields
write_fields-text r t body e n b =
    let text = λ (framing body : Bytes).
      user_agent_line r.header
      ++ (framing ++ (write_subset r.header write_exclude_header ++ (crlf ++ body))) in
    ap
      (λ o. o >>= λ tw. or_fail (Writer.write_header tw) >>= λ framing.
        or_fail (write_body tw) >>= λ x. ok (text framing x))
      e
    ∙ ap (λ o. or_fail o >>= λ framing. or_fail (write_body t) >>= λ x. ok (text framing x))
        (write_header-text t n)
    ∙ ap (λ o. or_fail o >>= λ x. ok (text (lines_text (framing_lines t)) x)) b
    ∙ ap
        (λ u. ok (
          u
          ++ (lines_text (framing_lines t)
              ++ (write_subset r.header write_exclude_header ++ (crlf ++ body)))))
        (user_agent_line-text r.header)
    ∙ ap
        (λ u. ok (
          lines_text (agent_lines r.header)
          ++ (lines_text (framing_lines t) ++ (u ++ (crlf ++ body)))))
        (write_subset-text r.header write_exclude_header)
