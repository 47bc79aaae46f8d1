-- ===== src/Transfer/Found.antt =====
-- What `readTransfer` (http/transfer.go) finds behind a header that a `transferWriter` has written.
use go_http.Prelude.{
  ℕ, zero, suc, not, ◌&&◌, ◌⊎◌, inl, inr, Bool-cases, ◌<◌, ◌^◌, ◌≡◌, ◌≢◌, refl, sym, ap, ◌∙◌, Bool,
  true, false, List, [], ◌∷◌, none, some, Bytes, codes, str_eq, if◌then◌else◌, if_true, if_false,
}
use go_http.Int.{pos}
use go_http.Strconv.{itoa64}
use go_http.Header.{Header, lookup, delete}
use go_http.Header.Maps.{lookup-delete}
use go_http.Mime.Filled.{as_entry}
use go_http.Transfer.{ok, chunked, no_body_expected}
use go_http.Transfer.Writer.{
  minus_one, is_negative, is_zero, TransferWriter, should_send_content_length,
}
use go_http.Transfer.Reader.{Transferred, transferred, read_fields, body_reader}
use go_http.Transfer.Announced.{
  te_key, cl_key, trailer_key, without_framing, HasBody, read_fields-chunked, read_fields-counted,
  read_fields-bare,
}

-- What a writer announces: chunks, or a length that has 63 bits.
abbrev pub Announces : TransferWriter → Type 0
Announces t =
    (chunked t.transfer_encoding ≡ true)
    ⊎ ((chunked t.transfer_encoding ≡ false)
        × ((n : ℕ) × (n < 2 ^ 63) × (t.content_length ≡ pos n)))

-- the values of the header lines that announce it
abbrev pub coding_values : TransferWriter → List Bytes
coding_values t =
    if should_send_content_length t
    then []
    else if chunked t.transfer_encoding
    then codes "chunked" ∷ []
    else []

abbrev pub length_values : TransferWriter → List Bytes
length_values t = if should_send_content_length t then itoa64 t.content_length ∷ [] else []

-- What `readTransfer` finds: the body as it was announced, and a header that keeps the other keys.
pub record Found (is_response close : Bool) (status : ℕ) (method : Bytes) (t : TransferWriter)
    (h : Header) (wire : Bytes) : Type 0 where
  pub left : Header
  pub found : Transferred
  pub reads : read_fields is_response status method close h wire ≡ (left, ok found)
  pub reader : found.body.reader ≡ body_reader t.transfer_encoding t.content_length false wire
  pub keeps :
      (j : Bytes) → str_eq te_key j ≡ false → str_eq cl_key j ≡ false → lookup j left ≡ lookup j h

without_framing-keeps :
    (h : Header) (j : Bytes)
    → str_eq te_key j ≡ false
    → str_eq cl_key j ≡ false
    → lookup j (without_framing h) ≡ lookup j h
without_framing-keeps h j e k =
    lookup-delete cl_key j (delete te_key h)
    ∙ if_false (str_eq cl_key j) _ _ k
    ∙ lookup-delete te_key j h
    ∙ if_false (str_eq te_key j) _ _ e

module _ (is_response close : Bool) (status : ℕ) (method : Bytes) (b : HasBody status method)
    (t : TransferWriter) (h : Header) (wire : Bytes) (no_trailer : lookup trailer_key h ≡ none)
    (coding : lookup te_key h ≡ as_entry (coding_values t))
    (sized : lookup cl_key h ≡ as_entry (length_values t)) where
  pub Found-chunked :
      chunked t.transfer_encoding ≡ true → Found is_response close status method t h wire
  unfolding should_send_content_length transferred chunked str_eq
  Found-chunked e =
      let plain : should_send_content_length t ≡ false =
        if_true (chunked t.transfer_encoding) _ _ e in
      let shown : lookup te_key h ≡ some (codes "chunked" ∷ []) =
        coding
        ∙ ap as_entry (
            if_false (should_send_content_length t) _ _ plain
            ∙ if_true (chunked t.transfer_encoding) _ _ e) in
      record {
        left = without_framing h;
        found = transferred is_response status close (codes "chunked" ∷ []) minus_one none wire;
        reads = read_fields-chunked is_response close status method b h wire no_trailer shown;
        reader = sym (if_true (chunked t.transfer_encoding) _ _ e);
        keeps = without_framing-keeps h;
      }

  pub Found-counted :
      (n : ℕ)
      → n < 2 ^ 63
      → t.content_length ≡ pos n
      → chunked t.transfer_encoding ≡ false
      → should_send_content_length t ≡ true
      → Found is_response close status method t h wire
  unfolding transferred chunked
  Found-counted n le same plain e =
      let none_coded : lookup te_key h ≡ none =
        coding ∙ ap as_entry (if_true (should_send_content_length t) _ _ e) in
      let shown : lookup cl_key h ≡ some (itoa64 (pos n) ∷ []) =
        sized
        ∙ ap as_entry (if_true (should_send_content_length t) _ _ e)
        ∙ ap (λ z. some (itoa64 z ∷ [])) same in
      record {
        left = h;
        found = transferred is_response status close [] (pos n) none wire;
        reads =
            read_fields-counted is_response close status method b h wire no_trailer n le none_coded
              shown;
        reader = sym (
            if_false (chunked t.transfer_encoding) _ _ plain
            ∙ ap (λ z. body_reader [] z false wire) same);
        keeps = λ j e k. refl;
      }

unsized-zero :
    (t : TransferWriter) (n : ℕ)
    → t.content_length ≡ pos n
    → chunked t.transfer_encoding ≡ false
    → should_send_content_length t ≡ false
    → t.content_length ≡ pos 0
unfolding should_send_content_length
unsized-zero t zero same plain bare = same
unsized-zero t (suc n) same plain bare = absurd (
    Bool-apart (
      sym (
        if_false (chunked t.transfer_encoding) _ _ plain
        ∙ if_true (not (is_negative t.content_length) && not (is_zero t.content_length)) _ _
            (ap (λ z. not (is_negative z) && not (is_zero z)) same))
      ∙ bare))
  where
    Bool-apart : true ≢ false
    Bool-apart e = cc

Found-bare :
    (t : TransferWriter) (h : Header) (wire : Bytes)
    → lookup trailer_key h ≡ none
    → (n : ℕ) → t.content_length ≡ pos n
    → chunked t.transfer_encoding ≡ false
    → should_send_content_length t ≡ false
    → lookup te_key h ≡ none
    → lookup cl_key h ≡ none
    → Found false false 200 (codes "GET") t h wire
unfolding transferred chunked
Found-bare t h wire no_trailer n same plain bare coding sized = record {
  left = delete cl_key h;
  found = transferred false 200 false [] (pos 0) none wire;
  reads = read_fields-bare h wire no_trailer coding sized;
  reader = sym (
      if_false (chunked t.transfer_encoding) _ _ plain
      ∙ ap (λ z. body_reader [] z false wire) (unsized-zero t n same plain bare));
  keeps = λ j e k. lookup-delete cl_key j h ∙ if_false (str_eq cl_key j) _ _ k;
}

-- A request is read as it was announced.
pub Found-request :
    (t : TransferWriter) (h : Header) (wire : Bytes)
    → lookup trailer_key h ≡ none
    → lookup te_key h ≡ as_entry (coding_values t)
    → lookup cl_key h ≡ as_entry (length_values t)
    → Announces t
    → Found false false 200 (codes "GET") t h wire
unfolding no_body_expected str_eq
Found-request t h wire no_trailer coding sized a =
    let b : HasBody 200 (codes "GET") = record { expected = refl; final = refl; allowed = refl } in
    elim a [
      | inl e ↦ Found-chunked false false 200 (codes "GET") b t h wire no_trailer coding sized e
      | inr (plain, (n, le, same)) ↦ elim (Bool-cases (should_send_content_length t)) [
        | inl sent ↦
            Found-counted false false 200 (codes "GET") b t h wire no_trailer coding sized n le same
              plain sent
        | inr bare ↦
            Found-bare t h wire no_trailer n same plain bare
              (coding
                ∙ ap as_entry (
                    if_false (should_send_content_length t) _ _ bare
                    ∙ if_false (chunked t.transfer_encoding) _ _ plain))
              (sized ∙ ap as_entry (if_false (should_send_content_length t) _ _ bare))
      ]
    ]
