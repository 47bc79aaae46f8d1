-- ===== src/Transfer/Announced.antt =====
-- `readTransfer` (http/transfer.go) on a header that announces the body in one of the ways in which
-- the writer does, and names no trailer.
use go_http.Prelude.{
  ℕ, ◌<◌, ◌^◌, ◌≡◌, ◌≢◌, refl, ap, ◌∙◌, Bool, false, List, [], ◌∷◌, none, some, Bytes, codes, arith,
  str_eq, trim_space, split, split_onto, trim_left, is_white, lower, upper, is_empty, ◌==◌, ◌/◌,
  ◌||◌,
}
use go_http.Int.{ℤ, pos}
use go_http.Strconv.{itoa64, uitob64}
use go_http.Strconv.Laws.{atoi64-itoa64, uitob64-ne}
use go_http.Header.{Header, lookup, delete, get, del, canonical_header_key, canonical_from}
use go_http.Header.Maps.{lookup-delete}
use go_http.Mime.Trimmed.{trim_space-trimmed}
use go_http.Requests.Lines.{itoa64-line}
use go_http.Transfer.{ok, chunked, no_body_expected}
use go_http.Transfer.Writer.{minus_one}
use go_http.Transfer.Reader.{
  fix_transfer_encoding, fix_encodings, fix_length, fix_trailer, transferred, read_fields,
  declared_length, default_length, also,
}

abbrev pub te_key : Bytes
te_key = codes "Transfer-Encoding"

abbrev pub cl_key : Bytes
cl_key = codes "Content-Length"

abbrev pub trailer_key : Bytes
trailer_key = codes "Trailer"

abbrev pub without_framing : Header → Header
without_framing h = delete cl_key (delete te_key h)

-- the three fixes at once
read_fields-steps :
    (is_response close : Bool) (status : ℕ) (method : Bytes) (h h1 h2 h3 : Header) (te : List Bytes)
    (z : ℤ) (wire : Bytes)
    → fix_transfer_encoding method h ≡ (h1, ok te)
    → fix_length is_response status method h1 te ≡ (h2, ok z)
    → fix_trailer h2 te ≡ (h3, ok none)
    → read_fields is_response status method close h wire
      ≡ (h3, ok (transferred is_response status close te z none wire))
unfolding read_fields
read_fields-steps is_response close status method h h1 h2 h3 te z wire a b c =
    ap
      (λ x. also x (λ h te. also (fix_length is_response status method h te) (λ g z.
        also (fix_trailer g te)
          (λ i trailer. (i, ok (transferred is_response status close te z trailer wire))))))
      a
    ∙ ap
        (λ x. also x (λ g z.
          also (fix_trailer g te)
            (λ i trailer. (i, ok (transferred is_response status close te z trailer wire)))))
        b
    ∙ ap
        (λ x.
          also x (λ i trailer. (i, ok (transferred is_response status close te z trailer wire))))
        c

trailer-none :
    (h : Header) (te : List Bytes) → lookup trailer_key h ≡ none → fix_trailer h te ≡ (h, ok none)
unfolding fix_trailer get canonical_header_key canonical_from upper lower
trailer-none h te e = rw (fix_trailer, get, e) refl

encoding-none :
    (method : Bytes) (h : Header)
    → lookup te_key h ≡ none
    → fix_transfer_encoding method h ≡ (h, ok [])
unfolding fix_transfer_encoding
encoding-none method h e = rw (e, fix_transfer_encoding) refl

encoding-chunked :
    (method : Bytes) (h : Header)
    → no_body_expected method ≡ false
    → lookup te_key h ≡ some (codes "chunked" ∷ [])
    → fix_transfer_encoding method h ≡ (without_framing h, ok (codes "chunked" ∷ []))
unfolding fix_transfer_encoding no_body_expected
encoding-chunked method h m e =
    unfold fix_encodings split split_onto trim_space trim_left is_white lower str_eq in
    rw (e, m, fix_transfer_encoding) refl

-- a message with a body
pub record HasBody (status : ℕ) (method : Bytes) : Type 0 where
  pub expected : no_body_expected method ≡ false
  pub final : (status / 100 == 1) ≡ false
  pub allowed : (status == 204 || status == 304) ≡ false

get-index :
    (h : Header) (k u : Bytes)
    → canonical_header_key k ≡ k
    → lookup k h ≡ some (u ∷ [])
    → get h k ≡ u
unfolding get
get-index h k u c e = rw (c, e) refl

itoa64-ne : (n : ℕ) → is_empty (itoa64 (pos n)) ≡ false
unfolding itoa64
itoa64-ne n = shown_ne (uitob64 n 10) (uitob64-ne 10 (omega arith) (omega arith) n)
  where
    shown_ne : (s : Bytes) → s ≢ [] → is_empty s ≡ false
    shown_ne [] h = absurd (h refl)
    shown_ne (c ∷ s) h = refl

declared_length-itoa64 : (n : ℕ) → n < 2 ^ 63 → declared_length (itoa64 (pos n)) ≡ ok (pos n)
unfolding declared_length
declared_length-itoa64 n le = rw ((atoi64-itoa64 n le).0, declared_length) refl

module _ (is_response close : Bool) (status : ℕ) (method : Bytes) (b : HasBody status method)
    (h : Header) (wire : Bytes) (no_trailer : lookup trailer_key h ≡ none) where
  length-chunked :
      (g : Header)
      → fix_length is_response status method g (codes "chunked" ∷ []) ≡ (g, ok minus_one)
  unfolding fix_length chunked str_eq
  length-chunked g = ground (arith, b.expected, b.final, b.allowed)

  pub read_fields-chunked :
      lookup te_key h ≡ some (codes "chunked" ∷ [])
      → read_fields is_response status method close h wire ≡ (
        without_framing h,
        ok (transferred is_response status close (codes "chunked" ∷ []) minus_one none wire),
      )
  unfolding str_eq
  read_fields-chunked e =
      read_fields-steps is_response close status method h (without_framing h) (without_framing h)
        (without_framing h) (codes "chunked" ∷ []) minus_one wire
        (encoding-chunked method h b.expected e) (length-chunked (without_framing h))
        (trailer-none (without_framing h) (codes "chunked" ∷ []) (
          lookup-delete cl_key trailer_key (delete te_key h)
          ∙ lookup-delete te_key trailer_key h
          ∙ no_trailer))

  length-counted :
      (n : ℕ)
      → n < 2 ^ 63
      → lookup cl_key h ≡ some (itoa64 (pos n) ∷ [])
      → fix_length is_response status method h [] ≡ (h, ok (pos n))
  unfolding fix_length chunked canonical_header_key canonical_from upper lower
  length-counted n le e =
      let shown = trim_space-trimmed (itoa64 (pos n)) (itoa64-line (pos n)).0 in
      rw (b.expected, fix_length)
        (rw (b.final, get-index h cl_key (itoa64 (pos n)) refl e, shown, itoa64-ne n)
          (rw (b.allowed, declared_length-itoa64 n le) refl))

  pub read_fields-counted :
      (n : ℕ)
      → n < 2 ^ 63
      → lookup te_key h ≡ none
      → lookup cl_key h ≡ some (itoa64 (pos n) ∷ [])
      → read_fields is_response status method close h wire
        ≡ (h, ok (transferred is_response status close [] (pos n) none wire))
  read_fields-counted n le e k =
      read_fields-steps is_response close status method h h h h [] (pos n) wire
        (encoding-none method h e) (length-counted n le k) (trailer-none h [] no_trailer)

-- a request that announces no body
module _ (h : Header) (wire : Bytes) (no_trailer : lookup trailer_key h ≡ none) where
  length-bare :
      lookup cl_key h ≡ none
      → fix_length false 200 (codes "GET") h [] ≡ (delete cl_key h, ok (pos 0))
  unfolding fix_length no_body_expected chunked get del canonical_header_key canonical_from upper
      lower default_length str_eq trim_space trim_left
  length-bare e = rw (e, fix_length, get) refl

  trailer_kept : lookup trailer_key (delete cl_key h) ≡ none
  unfolding str_eq
  trailer_kept = lookup-delete cl_key trailer_key h ∙ no_trailer

  pub read_fields-bare :
      lookup te_key h ≡ none
      → lookup cl_key h ≡ none
      → read_fields false 200 (codes "GET") false h wire
        ≡ (delete cl_key h, ok (transferred false 200 false [] (pos 0) none wire))
  read_fields-bare e k =
      read_fields-steps false false 200 (codes "GET") h h (delete cl_key h) (delete cl_key h) []
        (pos 0) wire (encoding-none (codes "GET") h e) (length-bare k)
        (trailer-none (delete cl_key h) [] trailer_kept)
