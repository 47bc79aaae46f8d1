-- ===== src/Mux/Longest.antt =====
-- The handler that the ServeMux (http/server.go) finds for a path.
use go_http.Prelude.{
  ℕ, ◌≤◌, ◌<◌, true, false, [], ◌∷◌, ◌++◌, Bytes, ◌≡◌, refl, ap, sym, arith, subst, length, ltb,
  ltb→lt, Option, none, some, All, ◌⊎◌, inl, inr, Bool-cases,
}
use go_http.Mux.{ServeMux, path_match, match_from, match}

module _ {ℓ} {H : Type ℓ} (path : Bytes) where
  -- no pattern that matches is longer
  abbrev pub AtMost : ℕ → ServeMux H → Type 0
  AtMost n m = All (λ e. path_match e.0 path ≡ true → length e.0 ≤ n) m

  abbrev pub Longest : ServeMux H → H → Type ℓ
  Longest m h =
      (k : Bytes) × (before : ServeMux H) × (after : ServeMux H) × (m ≡ before ++ ((k, h) ∷ after))
      × (path_match k path ≡ true)
      × AtMost (length k) m

  abbrev pub NoMatch : ServeMux H → Type 0
  NoMatch m = All (λ e. path_match e.0 path ≡ false) m

  none-AtMost : (n : ℕ) (m : ServeMux H) → NoMatch m → AtMost n m
  none-AtMost n [] a = tt
  none-AtMost n (e ∷ m) (a, more) = ((λ p. absurd (ground arith)), none-AtMost n m more)

  -- with a handler in hand, whose pattern has the length `n`
  abbrev Kept : H → ℕ → ServeMux H → Option H → Type ℓ
  Kept h n m o =
      ((o ≡ some h) × AtMost n m)
      ⊎ ((g : H) × (o ≡ some g)
          × (k : Bytes) × (before : ServeMux H) × (after : ServeMux H) × (m
              ≡ before ++ ((k, g) ∷ after))
          × (path_match k path ≡ true)
          × (n < length k)
          × AtMost (length k) m)

  -- a pattern in front that is no longer than those that win anyway
  behind :
      (h : H) (n : ℕ) (m : ServeMux H) (o : Option H) (k : Bytes) (v : H)
      → (path_match k path ≡ true → length k ≤ n)
      → Kept h n m o
      → Kept h n ((k, v) ∷ m) o
  behind h n m o k v low (inl (e, a)) = inl (e, (low, a))
  behind h n m o k v low (inr (g, e, j, before, after, eq, found, lt, a)) = inr (
    g,
    e,
    j,
    (k, v) ∷ before,
    after,
    ap (◌∷◌ (k, v)) eq,
    found,
    lt,
    ((λ p. omega (arith, low p)), a),
  )

  -- a pattern in front that takes over
  takes_over :
      (h : H) (n : ℕ) (m : ServeMux H) (o : Option H) (k : Bytes) (v : H)
      → path_match k path ≡ true
      → n < length k
      → Kept v (length k) m o
      → Kept h n ((k, v) ∷ m) o
  takes_over h n m o k v p lt (inl (e, a)) =
      inr (v, e, k, [], m, refl, p, lt, ((λ _. omega arith), a))
  takes_over h n m o k v p lt (inr (g, e, j, before, after, eq, found, more, a)) = inr (
    g,
    e,
    j,
    (k, v) ∷ before,
    after,
    ap (◌∷◌ (k, v)) eq,
    found,
    omega arith,
    ((λ _. omega arith), a),
  )

  match_from-some : (h : H) (n : ℕ) (m : ServeMux H) → Kept h n m (match_from (some h) n m path)
  unfolding match_from
  match_from-some h n [] = inl (refl, tt)
  match_from-some h n ((k, v) ∷ m) =
      let all = (k, v) ∷ m in
      let here : (o : Option H)
          → match_from (some h) n all path ≡ o
          → Kept h n all o
          → Kept h n all (match_from (some h) n all path) =
        λ o e x. subst (Kept h n all) (sym e) x in
      elim (Bool-cases (path_match k path)) [
        | inr p ↦
            here _ (rw (match_from, p) refl)
              (behind h n m _ k v (λ q. absurd (ground arith)) (match_from-some h n m))
        | inl p ↦ elim (Bool-cases (ltb n (length k))) [
          | inl b ↦
              here _ (rw (match_from, p, b) refl)
                (takes_over h n m _ k v p (ltb→lt n (length k) b) (match_from-some v (length k) m))
          | inr b ↦
              here _ (rw (match_from, p, b) refl)
                (behind h n m _ k v (λ q. ground arith) (match_from-some h n m))
        ]
      ]

  match_from-none :
      (m : ServeMux H)
      → ((match_from none 0 m path ≡ none) × NoMatch m)
        ⊎ ((g : H) × (match_from none 0 m path ≡ some g) × Longest m g)
  unfolding match_from
  match_from-none [] = inl (refl, tt)
  match_from-none ((k, v) ∷ m) = elim (Bool-cases (path_match k path)) [
    | inl p ↦ elim (match_from-some v (length k) m) [
      | inl (e, a) ↦ inr (v, rw (match_from, p) e, (k, [], m, refl, p, ((λ _. omega arith), a)))
      | inr (g, e, j, before, after, eq, found, lt, a) ↦ inr (
        g,
        rw (match_from, p) e,
        (j, (k, v) ∷ before, after, ap (◌∷◌ (k, v)) eq, found, ((λ _. omega arith), a)),
      )
    ]
    | inr p ↦ elim (match_from-none m) [
      | inl (e, a) ↦ inl (rw (match_from, p) e, (p, a))
      | inr (g, e, (j, before, after, eq, found, a)) ↦ inr (
        g,
        rw (match_from, p) e,
        (j, (k, v) ∷ before, after, ap (◌∷◌ (k, v)) eq, found, ((λ q. absurd (ground arith)), a)),
      )
    ]
  ]

-- In whatever order the map is gone through, `match` finds no handler only if no pattern matches
-- the path, and otherwise it finds the handler of a pattern that matches, where no pattern that
-- matches is longer.
pub match-Longest {ℓ} :
    {H : Type ℓ} (m : ServeMux H) (path : Bytes)
    → ((match m path ≡ none) × NoMatch path m)
      ⊎ ((h : H) × (match m path ≡ some h) × Longest path m h)
unfolding match
match-Longest m path = match_from-none path m
