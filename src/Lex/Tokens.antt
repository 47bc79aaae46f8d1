-- ===== src/Lex/Tokens.antt =====
-- `httpSplitFieldValue` (http/lex.go) on a list of tokens.
use go_http.Prelude.{
  ℕ, suc, ◌+◌, true, false, List, [], ◌∷◌, ◌++◌, ◌≡◌, ◌≢◌, refl, ◌∙◌, ap, sym, some, arith, Bytes,
  All, AllBytes, codes, join, length, ◌==◌, length-append, append_assoc, append-nil, suc-add,
}
use native.Mathlib.Nat.{zero-add, add-zero}
use go_http.Lex.{is_separator, is_token, flush, split_from, http_split_field_value}

is_token_class : (b : ℕ) → is_token b ≡ true → (is_separator b ≡ false) × ((b == b'"') ≡ false)
unfolding is_token is_separator
is_token_class b h = ground arith

split_from-token_step :
    (b : ℕ) (rest : Bytes) (f i : ℕ) (chunk : Bytes) (result : List Bytes)
    → is_token b ≡ true
    → split_from (suc f) i (b ∷ rest) chunk result
      ≡ split_from f (i + 1) rest (chunk ++ (b ∷ [])) result
unfolding split_from
split_from-token_step b rest f i chunk result h =
    rw ((is_token_class b h).1, (is_token_class b h).0, h)

split_from-token :
    (t rest : Bytes) (f i : ℕ) (chunk : Bytes) (result : List Bytes)
    → AllBytes is_token t
    → split_from (length t + f) i (t ++ rest) chunk result
      ≡ split_from f (i + length t) rest (chunk ++ t) result
split_from-token [] rest f i chunk result h = rw (zero-add, add-zero, append-nil)
split_from-token (b ∷ t) rest f i chunk result h = rw (suc-add (length t) f) (
    split_from-token_step b (t ++ rest) (length t + f) i chunk result h.0
    ∙ split_from-token t rest f (i + 1) (chunk ++ (b ∷ [])) result h.1
    ∙ rw append_assoc (ap (λ k. split_from f k rest (chunk ++ (b ∷ t)) result) (omega arith)))

abbrev pub IsWord : Bytes → Type 0
IsWord t = (t ≢ []) × AllBytes is_token t

flush-IsWord : (t : Bytes) (result : List Bytes) → IsWord t → flush t result ≡ result ++ (t ∷ [])
unfolding flush
flush-IsWord [] result h = absurd (h.0 refl)
flush-IsWord (c ∷ cs) result h = refl

abbrev pub comma : Bytes
comma = codes ", "

-- The comma and the blank end the pending word.
split_from-comma :
    (f i : ℕ) (rest t : Bytes) (result : List Bytes)
    → IsWord t
    → split_from (suc (suc f)) i (comma ++ rest) t result
      ≡ split_from f (i + 2) rest [] (result ++ (t ∷ []))
unfolding split_from is_separator
split_from-comma f i rest t result h =
    rw (flush-IsWord t result h)
      (ap (λ k. split_from f k rest [] (result ++ (t ∷ []))) (omega arith))

split_from_end :
    (f i : ℕ) (chunk : Bytes) (result : List Bytes)
    → split_from (suc f) i [] chunk result ≡ some (i, flush chunk result)
unfolding split_from
split_from_end f i chunk result = refl

split_from-join :
    (ts : List Bytes) (i : ℕ) (result : List Bytes)
    → All IsWord ts
    → split_from (suc (length (join comma ts))) i (join comma ts) [] result
      ≡ some (i + length (join comma ts), result ++ ts)
unfolding join
split_from-join [] i result h = unfold split_from flush in rw (add-zero, append-nil)
split_from-join (t ∷ []) i result h =
    let fuel : suc (length t) ≡ length t + 1 = omega arith in
    ap (λ k. split_from k i t [] result) fuel
    ∙ ap (λ v. split_from (length t + 1) i v [] result) (sym (append-nil t))
    ∙ split_from-token t [] 1 i [] result h.0.1
    ∙ split_from_end 0 (i + length t) t result
    ∙ ap (λ r. some (i + length t, r)) (flush-IsWord t result h.0)
split_from-join (t ∷ u ∷ ts) i result h =
    let rest = join comma (u ∷ ts) in
    let after = suc (length rest) in
    let size : length (t ++ (comma ++ rest)) ≡ length t + suc after =
      omega (arith, length-append {0} t (comma ++ rest)) in
    let fuel : suc (length (t ++ (comma ++ rest))) ≡ length t + suc (suc after) =
      omega (arith, size) in
    ap (λ k. split_from k i (t ++ (comma ++ rest)) [] result) fuel
    ∙ split_from-token t (comma ++ rest) (suc (suc after)) i [] result h.0.1
    ∙ split_from-comma after (i + length t) rest t result h.0
    ∙ split_from-join (u ∷ ts) (i + length t + 2) (result ++ (t ∷ [])) h.1
    ∙ rw append_assoc (ap (λ k. some (k, result ++ (t ∷ u ∷ ts))) (omega (arith, size)))

-- A list of tokens, joined by commas, splits into just these tokens, and all of it is eaten.
pub http_split_field_value-join :
    (ts : List Bytes)
    → All IsWord ts
    → http_split_field_value (join comma ts) ≡ some (length (join comma ts), ts)
unfolding http_split_field_value
http_split_field_value-join ts h = split_from-join ts 0 [] h ∙ rw zero-add
