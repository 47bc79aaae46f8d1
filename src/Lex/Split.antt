-- ===== src/Lex/Split.antt =====
-- What `httpSplitFieldValue` (http/lex.go) returns.
use go_http.Prelude.{
  ℕ, zero, suc, ◌+◌, ◌-◌, ◌≤◌, ◌<◌, ◌⊎◌, inl, inr, List, [], ◌∷◌, ◌++◌, ◌≡◌, ◌≢◌, refl, ◌∙◌, Option,
  some, none, arith, Bytes, All, All-append, length, drop, ◌==◌, ◌||◌, if_intro, length-drop,
  drop-drop, ap, subst,
}
use native.Mathlib.Nat.{sub_self, sub-zero}
use go_http.Lex.{
  Unquoted, out_of_range, failed, unquoted, is_separator, is_token, http_unquote, unquote_from,
  http_unquote_pair, clean_byte, flush, split_from, http_split_field_value,
}
use go_http.Lex.Quoted.{http_unquote_bounds}

abbrev pub AllNonempty : List Bytes → Type 0
AllNonempty = All (λ p. p ≢ [])

-- Where the loop may stop: at the end, or at a quoted string that is malformed.
abbrev pub StopsAt : Bytes → Type 0
StopsAt raw = (raw ≡ []) ⊎ (http_unquote raw ≡ failed)

flush-AllNonempty :
    (chunk : Bytes) (result : List Bytes) → AllNonempty result → AllNonempty (flush chunk result)
unfolding flush
flush-AllNonempty [] result h = h
flush-AllNonempty (c ∷ cs) result h = All-append _ result ((c ∷ cs) ∷ []) h (λ e. cc, tt)

Unquoted-cases :
    (u : Unquoted)
    → (u ≡ out_of_range) ⊎ (u ≡ failed) ⊎ ((n : ℕ) × (s : Bytes) × (u ≡ unquoted n s))
Unquoted-cases out_of_range = inl refl
Unquoted-cases failed = inr (inl refl)
Unquoted-cases (unquoted n s) = inr (inr (n, s, refl))

unquote_from-ne-out_of_range : (i : ℕ) (buf raw : Bytes) → unquote_from i buf raw ≢ out_of_range
unfolding unquote_from
unquote_from-ne-out_of_range i buf [] e = cc
unquote_from-ne-out_of_range i buf (b ∷ []) e = ground arith
unquote_from-ne-out_of_range i buf (b ∷ d ∷ rest) e = ground (
  arith,
  unquote_from-ne-out_of_range (i + 2) (buf ++ (http_unquote_pair d ∷ [])) rest,
  unquote_from-ne-out_of_range (i + 1) (buf ++ (clean_byte b ∷ [])) (d ∷ rest),
)

http_unquote-ne-out_of_range : (b : ℕ) (rest : Bytes) → http_unquote (b ∷ rest) ≢ out_of_range
unfolding http_unquote
http_unquote-ne-out_of_range b rest e = ground (arith, unquote_from-ne-out_of_range 1 [] rest)

-- The loop's result `r` from position `i`, with `raw` left: it ends, within the text, with no
-- empty part, at the end or at a malformed quoted string.
abbrev Ends : ℕ → Bytes → Option (ℕ × List Bytes) → Type 0
Ends i raw none = ⊥
Ends i raw (some (n, parts)) =
    (i ≤ n) × (n ≤ i + length raw) × AllNonempty parts × StopsAt (drop (n - i) raw)

Ends-drop :
    (i k : ℕ) (raw : Bytes) (r : Option (ℕ × List Bytes))
    → k ≤ length raw
    → Ends (i + k) (drop k raw) r
    → Ends i raw r
Ends-drop i k raw none h e = e
Ends-drop i k raw (some (n, parts)) h (lo, hi, full, stop) = (
  omega arith,
  omega (arith, length-drop {0} k raw),
  full,
  subst (λ t. StopsAt t) (drop-drop k (n - (i + k)) raw ∙ ap (λ j. drop j raw) (omega arith)) stop,
)

split_from-Ends :
    (f i : ℕ) (raw chunk : Bytes) (result : List Bytes)
    → length raw < f
    → AllNonempty result
    → Ends i raw (split_from f i raw chunk result)
unfolding split_from
split_from-Ends zero i raw chunk result h full = absurd (omega arith)
split_from-Ends (suc f) i [] chunk result h full =
    (omega arith, omega arith, flush-AllNonempty chunk result full, rw sub_self (inl refl))
split_from-Ends (suc f) i (b ∷ rest) chunk result h full =
    let one = λ (c : Bytes) (r : List Bytes) (k : AllNonempty r).
      Ends-drop i 1 (b ∷ rest) (split_from f (i + 1) rest c r) (omega arith)
        (split_from-Ends f (i + 1) rest c r (omega arith) k) in
    if_intro (Ends i (b ∷ rest)) (b == b'"')
      (elim (Unquoted-cases (http_unquote (b ∷ rest))) [
        | inl e ↦ absurd (http_unquote-ne-out_of_range b rest e)
        | inr (inl e) ↦ rw e (omega arith, omega arith, full, rw sub_self (inr e))
        | inr (inr (n, s, e)) ↦
            let (two, most, _) = http_unquote_bounds (b ∷ rest) n s e in
            rw e (
              Ends-drop i n (b ∷ rest) _ most (
                split_from-Ends f (i + n) (drop n (b ∷ rest)) (chunk ++ s) result
                  (omega (arith, length-drop {0} n (b ∷ rest))) full))
      ])
      (if_intro (Ends i (b ∷ rest)) (is_separator b)
        (one [] (flush chunk result) (flush-AllNonempty chunk result full))
        (if_intro (Ends i (b ∷ rest)) (is_token b) (one _ result full) (
          if_intro (Ends i (b ∷ rest)) (b == b'\n' || b == b'\r') (one _ result full)
            (one _ result full))))

-- `httpSplitFieldValue` always ends, within the text; no part that it returns is empty; and it
-- stops early only where a malformed quoted string begins.
pub http_split_field_value_total :
    (fv : Bytes)
    → (n : ℕ) × (parts : List Bytes) × (http_split_field_value fv ≡ some (n, parts))
      × (n ≤ length fv)
      × AllNonempty parts
      × StopsAt (drop n fv)
unfolding http_split_field_value
http_split_field_value_total fv =
    go (split_from (suc (length fv)) 0 fv [] [])
      (split_from-Ends (suc (length fv)) 0 fv [] [] (omega arith) tt)
  where
    go :
        (r : Option (ℕ × List Bytes))
        → Ends 0 fv r
        → (n : ℕ) × (parts : List Bytes) × (r ≡ some (n, parts))
          × (n ≤ length fv)
          × AllNonempty parts
          × StopsAt (drop n fv)
    go none e = absurd e
    go (some (n, parts)) e = (n, parts, refl, omega arith, e.2, rw sub-zero at e.3)
