-- ===== src/Requests/Framed.antt =====
-- What the header that `ReadRequest` reads says of the framing that `Request.Write` (http/request.go)
-- announces.
use go_http.Prelude.{
  ◌≡◌, refl, sym, ap, ◌∙◌, Bool, true, false, List, [], ◌∷◌, ◌++◌, Bytes, codes, append-nil,
  append_assoc, is_empty, str_eq, if_intro, if_true, if_false, if◌then◌else◌, map,
}
use go_http.Strconv.{itoa64}
use go_http.Header.{
  Header, lookup, index, get, del, canonical_header_key, is_excluded, first_or_empty,
}
use go_http.Header.Maps.{lookup-delete, lookup-assign}
use go_http.Transfer.{chunked}
use go_http.Transfer.Writer.{TransferWriter, should_send_content_length}
use go_http.Transfer.Announced.{te_key, cl_key, trailer_key}
use go_http.Transfer.Found.{coding_values, length_values}
use go_http.Mime.Headers.{FieldLine, append_lines, clean}
use go_http.Mime.Values.{
  line_values, index-lines, line_values-append, line_values-subset_lines, subset_lines, Distinct,
}
use go_http.Mime.Filled.{lookup-values, append_lines-Filled, nil-Filled, as_entry}
use go_http.Requests.Reading.{fix_pragma_cache_control}
use go_http.Requests.Writing.{Outgoing, write_exclude_header, first_or_default}
use go_http.Requests.Lines.{agent_lines, framing_lines, request_lines}

abbrev host_key : Bytes
host_key = codes "Host"

line_values-agent :
    (j : Bytes) (h : Header)
    → str_eq (codes "User-Agent") j ≡ false
    → line_values j (agent_lines h) ≡ []
line_values-agent j h e =
    let agent = first_or_default (lookup (codes "User-Agent") h) in
    if_intro (λ ls. line_values j ls ≡ []) (is_empty agent) refl
      (if_false (str_eq (codes "User-Agent") j) _ _ e)

-- the lines for three answers
abbrev lines_for : Bool → Bool → Bool → Bytes → List FieldLine
lines_for close sized coded n =
    (if close then (codes "Connection", codes "close") ∷ [] else [])
    ++ (if sized
        then (codes "Content-Length", n) ∷ []
        else if coded
        then (codes "Transfer-Encoding", codes "chunked") ∷ []
        else [])

coding-lines :
    (close sized coded : Bool) (n : Bytes)
    → line_values te_key (lines_for close sized coded n)
      ≡ (if sized then [] else if coded then codes "chunked" ∷ [] else [])
unfolding str_eq
coding-lines true true c n = refl
coding-lines true false true n = refl
coding-lines true false false n = refl
coding-lines false true c n = refl
coding-lines false false true n = refl
coding-lines false false false n = refl

length-lines :
    (close sized coded : Bool) (n : Bytes)
    → line_values cl_key (lines_for close sized coded n) ≡ (if sized then n ∷ [] else [])
unfolding str_eq
length-lines true true c n = refl
length-lines true false true n = refl
length-lines true false false n = refl
length-lines false true c n = refl
length-lines false false true n = refl
length-lines false false false n = refl

-- Neither a host nor a trailer is among them.
other-lines :
    (close sized coded : Bool) (n : Bytes)
    → (line_values trailer_key (lines_for close sized coded n) ≡ [])
      × (line_values host_key (lines_for close sized coded n) ≡ [])
unfolding str_eq
other-lines true true c n = (refl, refl)
other-lines true false true n = (refl, refl)
other-lines true false false n = (refl, refl)
other-lines false true c n = (refl, refl)
other-lines false false true n = (refl, refl)
other-lines false false false n = (refl, refl)

pub framing-coding : (t : TransferWriter) → line_values te_key (framing_lines t) ≡ coding_values t
framing-coding t =
    coding-lines t.close (should_send_content_length t) (chunked t.transfer_encoding)
      (itoa64 t.content_length)

pub framing-length : (t : TransferWriter) → line_values cl_key (framing_lines t) ≡ length_values t
framing-length t =
    length-lines t.close (should_send_content_length t) (chunked t.transfer_encoding)
      (itoa64 t.content_length)

pub framing-others :
    (t : TransferWriter)
    → (line_values trailer_key (framing_lines t) ≡ [])
      × (line_values host_key (framing_lines t) ≡ [])
framing-others t =
    other-lines t.close (should_send_content_length t) (chunked t.transfer_encoding)
      (itoa64 t.content_length)

-- The keys that `fixPragmaCacheControl` and the loss of the host leave alone.
pub lookup-fixed :
    (g : Header) (j : Bytes)
    → str_eq host_key j ≡ false
    → str_eq (codes "Cache-Control") j ≡ false
    → lookup j (fix_pragma_cache_control (del g host_key)) ≡ lookup j g
unfolding fix_pragma_cache_control del canonical_header_key
lookup-fixed g j e k =
    if_intro (λ x. lookup j x ≡ lookup j (del g host_key)) _
      (lookup-assign (codes "Cache-Control") j _ (del g host_key)
        ∙ if_false (str_eq (codes "Cache-Control") j) _ _ k)
      refl
    ∙ lookup-delete host_key j g
    ∙ if_false (str_eq host_key j) _ _ e

module _ (r : Outgoing) (host : Bytes) (t : TransferWriter) (distinct : Distinct r.header) where
  abbrev pub sent_header : Header
  sent_header = append_lines (request_lines r host t) []

  -- The values under each key of the header that is read.
  pub index-sent_header :
      (j : Bytes)
      → index sent_header j
        ≡ line_values j ((host_key, host) ∷ (agent_lines r.header ++ framing_lines t))
          ++ (if is_excluded write_exclude_header j then [] else map clean (index r.header j))
  index-sent_header j =
      index-lines (request_lines r host t) j
      ∙ ap (λ x. line_values j ((host_key, host) ∷ x))
          (sym (
            append_assoc (agent_lines r.header) (framing_lines t)
              (subset_lines r.header write_exclude_header)))
      ∙ line_values-append j ((host_key, host) ∷ (agent_lines r.header ++ framing_lines t))
          (subset_lines r.header write_exclude_header)
      ∙ ap (λ x. line_values j ((host_key, host) ∷ (agent_lines r.header ++ framing_lines t)) ++ x)
          (line_values-subset_lines r.header write_exclude_header j distinct)

  -- at a key of the framing
  framing_values :
      (j : Bytes)
      → is_excluded write_exclude_header j ≡ true
      → str_eq (codes "User-Agent") j ≡ false
      → str_eq host_key j ≡ false
      → index sent_header j ≡ line_values j (framing_lines t)
  framing_values j x a e =
      index-sent_header j
      ∙ ap
          (λ ys. line_values j ((host_key, host) ∷ (agent_lines r.header ++ framing_lines t)) ++ ys)
          (if_true (is_excluded write_exclude_header j) _ _ x)
      ∙ append-nil (line_values j ((host_key, host) ∷ (agent_lines r.header ++ framing_lines t)))
      ∙ if_false (str_eq host_key j) _ _ e
      ∙ line_values-append j (agent_lines r.header) (framing_lines t)
      ∙ ap (λ ys. ys ++ line_values j (framing_lines t)) (line_values-agent j r.header a)

  pub lookup-framing :
      (j : Bytes) (vs : List Bytes)
      → is_excluded write_exclude_header j ≡ true
      → str_eq (codes "User-Agent") j ≡ false
      → str_eq host_key j ≡ false
      → line_values j (framing_lines t) ≡ vs
      → lookup j sent_header ≡ as_entry vs
  lookup-framing j vs x a e shown =
      lookup-values sent_header j vs (append_lines-Filled (request_lines r host t) [] nil-Filled)
        (framing_values j x a e ∙ shown)

  pub get-host : get sent_header host_key ≡ host
  unfolding get canonical_header_key is_excluded str_eq
  get-host = ap first_or_empty (
      index-sent_header host_key
      ∙ ap (λ ys. (host ∷ ys) ++ [])
          (line_values-append host_key (agent_lines r.header) (framing_lines t)
            ∙ ap (λ ys. ys ++ line_values host_key (framing_lines t))
                (line_values-agent host_key r.header refl)
            ∙ (framing-others t).1))
