-- ===== src/Responses/Finished.antt =====
-- What `ReadResponse` (http/response.go) makes of the header that `Response.Write` writes.
use go_http.Prelude.{
  ltb, ◌==◌, to_lower, contains, ℕ, Bool, true, false, ◌⊎◌, inl, inr, ◌<◌, ◌^◌, ◌≡◌, refl, ap, ◌∙◌,
  List, [], ◌∷◌, ◌++◌, Bytes, codes, str_eq, if◌then◌else◌, if_intro, if_true, if_false, map,
  append-nil, not, ◌&&◌,
}
use go_http.Int.{ℤ, pos}
use go_http.Header.{
  Header, lookup, index, is_excluded, values_of, get, del, delete, canonical_header_key,
}
use go_http.Header.Maps.{lookup-delete, lookup-assign}
use go_http.Transfer.{ok, chunked}
use go_http.Transfer.Writer.{TransferWriter, should_send_content_length}
use go_http.Transfer.Reader.{Transferred, body_reader, read_transfer, read_fields, should_close}
use go_http.Transfer.Announced.{te_key, cl_key, trailer_key, HasBody}
use go_http.Transfer.Found.{Found, Found-chunked, Found-counted, coding_values, length_values}
use go_http.Mime.Headers.{append_lines, clean, FieldLine}
use go_http.Mime.Values.{
  line_values, Distinct, subset_lines, index-lines, line_values-append, line_values-subset_lines,
}
use go_http.Mime.Filled.{lookup-values, append_lines-Filled, nil-Filled, as_entry}
use go_http.Requests.Reading.{fix_pragma_cache_control}
use go_http.Requests.Lines.{framing_lines}
use go_http.Requests.Framed.{framing-coding, framing-length, framing-others}
use go_http.Requests.Finished.{or_false}
use go_http.Responses.{
  Received, Answer, build_response, finish_response, resp_exclude_header, natural,
}

-- the keys that `ReadResponse` may take out of the header or put into it
abbrev pub kept_keys : List Bytes
kept_keys =
    codes "Connection"
    ∷ codes "Cache-Control"
    ∷ codes "Transfer-Encoding"
    ∷ codes "Content-Length"
    ∷ []

-- What a writer says of the end of the body: it comes in chunks, or has a length of 63 bits.
abbrev pub Declares : TransferWriter → Type 0
Declares t =
    (chunked t.transfer_encoding ≡ true)
    ⊎ ((chunked t.transfer_encoding ≡ false)
        × (should_send_content_length t ≡ true)
        × ((n : ℕ) × (n < 2 ^ 63) × (t.content_length ≡ pos n)))

-- the three branches of `shouldClose`
abbrev closing_choice : Header → Header → Bool → Bool → Bool → Bool → Header × Bool
closing_choice h d a b c x =
    if a then (h, true) else if b then (h, x) else if c then (d, true) else (h, false)

closing-keeps :
    (j : Bytes) (h d : Header) (a b c x : Bool)
    → lookup j d ≡ lookup j h
    → lookup j (closing_choice h d a b c x).0 ≡ lookup j h
closing-keeps j h d true b c x e = refl
closing-keeps j h d false true c x e = refl
closing-keeps j h d false false true x e = e
closing-keeps j h d false false false x e = refl

should_close-keeps :
    (major minor : ℕ) (h : Header) (j : Bytes)
    → str_eq (codes "Connection") j ≡ false
    → lookup j (should_close major minor h).0 ≡ lookup j h
unfolding should_close del canonical_header_key
should_close-keeps major minor h j e =
    closing-keeps j h (delete (codes "Connection") h) (ltb major 1) (major == 1 && minor == 0)
      (str_eq (to_lower (get h (codes "Connection"))) (codes "close"))
      (not (contains (to_lower (get h (codes "Connection"))) (codes "keep-alive")))
      (lookup-delete (codes "Connection") j h ∙ if_false (str_eq (codes "Connection") j) _ _ e)

-- The keys that `fixPragmaCacheControl` and `shouldClose` leave alone.
lookup-settled :
    (major minor : ℕ) (g : Header) (j : Bytes)
    → str_eq (codes "Connection") j ≡ false
    → str_eq (codes "Cache-Control") j ≡ false
    → lookup j (should_close major minor (fix_pragma_cache_control g)).0 ≡ lookup j g
unfolding fix_pragma_cache_control
lookup-settled major minor g j e k =
    let h = fix_pragma_cache_control g in
    should_close-keeps major minor h j e
    ∙ if_intro (λ x. lookup j x ≡ lookup j g) _
        (lookup-assign (codes "Cache-Control") j _ g
          ∙ if_false (str_eq (codes "Cache-Control") j) _ _ k)
        refl

abbrev pub response_lines : Answer → TransferWriter → List FieldLine
response_lines r t = framing_lines t ++ subset_lines r.header resp_exclude_header

pub index-response_lines :
    (r : Answer) (t : TransferWriter) (j : Bytes)
    → Distinct r.header
    → index (append_lines (response_lines r t) []) j
      ≡ line_values j (framing_lines t)
        ++ (if is_excluded resp_exclude_header j then [] else map clean (index r.header j))
index-response_lines r t j distinct =
    index-lines (response_lines r t) j
    ∙ line_values-append j (framing_lines t) (subset_lines r.header resp_exclude_header)
    ∙ ap (λ x. line_values j (framing_lines t) ++ x)
        (line_values-subset_lines r.header resp_exclude_header j distinct)

lookup-response_lines :
    (r : Answer) (t : TransferWriter) (j : Bytes) (vs : List Bytes)
    → Distinct r.header
    → is_excluded resp_exclude_header j ≡ true
    → line_values j (framing_lines t) ≡ vs
    → lookup j (append_lines (response_lines r t) []) ≡ as_entry vs
lookup-response_lines r t j vs distinct x shown =
    lookup-values (append_lines (response_lines r t) []) j vs
      (append_lines-Filled (response_lines r t) [] nil-Filled)
      (index-response_lines r t j distinct
        ∙ ap (λ ys. line_values j (framing_lines t) ++ ys)
            (if_true (is_excluded resp_exclude_header j) _ _ x)
        ∙ append-nil (line_values j (framing_lines t))
        ∙ shown)

-- the response that is read
abbrev pub received_of : Bytes → ℤ → Bytes → ℕ → ℕ → Bytes → Header → Transferred → Received
received_of status code proto major minor method h u = record {
  status = status;
  status_code = code;
  proto = proto;
  proto_major = major;
  proto_minor = minor;
  header = h;
  body = u.body;
  content_length = u.content_length;
  transfer_encoding = u.transfer_encoding;
  close = u.close;
  trailer = u.trailer;
  request_method = method;
}

finish_response-ok :
    (status : Bytes) (code : ℤ) (proto : Bytes) (major minor : ℕ) (method : Bytes) (g h : Header)
    (u : Transferred) (wire : Bytes)
    → read_fields true
        (natural code)
        method
        (should_close major minor (fix_pragma_cache_control g)).1
        (should_close major minor (fix_pragma_cache_control g)).0
        wire
      ≡ (h, ok u)
    → finish_response status code proto major minor method (g, wire)
      ≡ ok (received_of status code proto major minor method h u)
unfolding finish_response build_response read_transfer
finish_response-ok status code proto major minor method g h u wire e =
    ap (build_response status code proto major minor method) e

pub finish_response-Declares :
    (status proto : Bytes) (n major minor : ℕ) (method : Bytes) (r : Answer) (t : TransferWriter)
    (wire : Bytes)
    → Distinct r.header
    → HasBody n method
    → Declares t
    → (q : Received) × (finish_response status
          (pos n)
          proto
          major
          minor
          method
          (append_lines (response_lines r t) [], wire)
        ≡ ok q)
      × (q.status ≡ status)
      × (q.status_code ≡ pos n)
      × (q.proto ≡ proto)
      × (q.body.reader ≡ body_reader t.transfer_encoding t.content_length false wire)
      × ((j : Bytes)
          → is_excluded kept_keys j ≡ false
          → index q.header j
            ≡ line_values j (framing_lines t)
              ++ (if is_excluded resp_exclude_header j then [] else map clean (index r.header j)))
unfolding is_excluded str_eq
finish_response-Declares status proto n major minor method r t wire distinct b d =
    let g = append_lines (response_lines r t) [] in
    let settled = should_close major minor (fix_pragma_cache_control g) in
    let no_trailer =
      lookup-settled major minor g trailer_key refl refl
      ∙ lookup-response_lines r t trailer_key [] distinct refl (framing-others t).0 in
    let coding =
      lookup-settled major minor g te_key refl refl
      ∙ lookup-response_lines r t te_key (coding_values t) distinct refl (framing-coding t) in
    let sized =
      lookup-settled major minor g cl_key refl refl
      ∙ lookup-response_lines r t cl_key (length_values t) distinct refl (framing-length t) in
    let f : Found true settled.1 n method t settled.0 wire = elim d [
      | inl e ↦ Found-chunked true settled.1 n method b t settled.0 wire no_trailer coding sized e
      | inr (plain, sent, (m, le, same)) ↦
          Found-counted true settled.1 n method b t settled.0 wire no_trailer coding sized m le same
            plain sent
    ] in
    (
      received_of status (pos n) proto major minor method f.left f.found,
      finish_response-ok status (pos n) proto major minor method g f.left f.found wire f.reads,
      refl,
      refl,
      refl,
      f.reader,
      λ j out.
          let (not_connection, rest) = or_false _ _ out in
          let (not_cache, framing) = or_false _ _ rest in
          let (not_coding, last) = or_false _ _ framing in
          ap values_of (
            f.keeps j not_coding (or_false _ _ last).0
            ∙ lookup-settled major minor g j not_connection not_cache)
          ∙ index-response_lines r t j distinct,
    )
