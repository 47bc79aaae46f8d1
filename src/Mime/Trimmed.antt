-- ===== src/Mime/Trimmed.antt =====
-- What `strings.TrimSpace` leaves: nothing, or a text with no white space at its ends.
use go_http.Prelude.{
  trim_space-visible, ℕ, ◌≡◌, refl, sym, ap, subst, ◌∙◌, ◌⊎◌, inl, inr, [], ◌∷◌, Bytes, arith,
  Bool-cases, is_white, trim_left, trim_space, BeginsVisible, EndsVisible, EndsVisible-append,
  last_of, Lacks, count, if_true, if_false,
}
use mathlib.Core.List.{reverse, reverse-cons, reverse-append}

abbrev pub IsTrimmed : Bytes → Type 0
IsTrimmed s = (s ≡ []) ⊎ (BeginsVisible s × EndsVisible s)

trim_left_begins : (s : Bytes) → (trim_left s ≡ []) ⊎ BeginsVisible (trim_left s)
unfolding trim_left
trim_left_begins [] = inl refl
trim_left_begins (c ∷ cs) = elim (Bool-cases (is_white c)) [
  | inl white ↦ rw white (trim_left_begins cs)
  | inr solid ↦ rw solid (inr solid)
]

trim_left-EndsVisible : (s : Bytes) → EndsVisible s → EndsVisible (trim_left s)
unfolding trim_left
trim_left-EndsVisible [] h = absurd h
trim_left-EndsVisible (c ∷ []) h = rw h h
trim_left-EndsVisible (c ∷ d ∷ cs) h = elim (Bool-cases (is_white c)) [
  | inl white ↦
      subst EndsVisible (sym (if_true (is_white c) _ _ white)) (trim_left-EndsVisible (d ∷ cs) h)
  | inr solid ↦ subst EndsVisible (sym (if_false (is_white c) _ _ solid)) h
]

reverse-EndsVisible : (s : Bytes) → BeginsVisible s → EndsVisible (reverse s)
reverse-EndsVisible [] h = absurd h
reverse-EndsVisible (c ∷ cs) h =
    subst EndsVisible (sym (reverse-cons c cs)) (EndsVisible-append (reverse cs) (c ∷ []) h)

reverse-BeginsVisible : (s : Bytes) → EndsVisible s → BeginsVisible (reverse s)
reverse-BeginsVisible s h =
    let (a, d, e, solid) = last_of s h in
    subst BeginsVisible (sym (ap reverse e ∙ reverse-append a (d ∷ []))) solid

IsTrimmed-end : (t : Bytes) → BeginsVisible t → IsTrimmed (reverse (trim_left (reverse t)))
IsTrimmed-end t h =
    let x = trim_left (reverse t) in
    let ends : EndsVisible x = trim_left-EndsVisible (reverse t) (reverse-EndsVisible t h) in
    elim (trim_left_begins (reverse t)) [
      | inl empty ↦ absurd (subst EndsVisible empty ends)
      | inr begins ↦ inr (reverse-BeginsVisible x ends, reverse-EndsVisible x begins)
    ]

pub trim_space-IsTrimmed : (s : Bytes) → IsTrimmed (trim_space s)
unfolding trim_space
trim_space-IsTrimmed s = elim (trim_left_begins s) [
  | inl empty ↦ inl (ap (λ t. reverse (trim_left (reverse t))) empty ∙ (unfold trim_left in refl))
  | inr begins ↦ IsTrimmed-end (trim_left s) begins
]

pub Lacks-count : (b : ℕ) (s : Bytes) → count b s ≡ 0 → Lacks b s
unfolding count
Lacks-count b [] h = tt
Lacks-count b (c ∷ cs) h = ground (arith, Lacks-count b cs)

pub trim_space-trimmed : (s : Bytes) → IsTrimmed s → trim_space s ≡ s
unfolding trim_space trim_left
trim_space-trimmed s (inl e) = rw e refl
trim_space-trimmed s (inr (h, k)) = trim_space-visible s h k
