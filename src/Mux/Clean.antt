-- ===== src/Mux/Clean.antt =====
-- The canonical paths of the ServeMux (http/server.go).
use go_http.Prelude.{
  subst, ℕ, true, false, ◌||◌, List, [], ◌∷◌, ◌++◌, ◌≡◌, ◌≢◌, refl, ap, sym, ◌∙◌, arith, Bytes,
  codes, str_eq, drop, str_eq_iff, is_empty, All, Lacks, split, split_onto, split-append,
  split-Lacks, join, Bool-cases, inl, inr, if◌then◌else◌, All-append, append_assoc, append-nil,
  ◌==◌, Option, none, some,
}
use mathlib.Core.List.{reverse, reverse-cons, reverse-reverse}
use go_http.Mux
use go_http.Mux.{
  match, handled, not_found, last_is_slash, push_element, push_elements, clean_rooted, clean_path,
  put_back, ServeMux, Served, redirected, serve_http,
}

-- an element that a canonical path may have
abbrev pub IsElement : Bytes → Type 0
IsElement e =
    (is_empty e ≡ false)
    × Lacks b'/' e
    × (str_eq e (codes ".") ≡ false)
    × (str_eq e (codes "..") ≡ false)

split_onto-All : (part s : Bytes) → Lacks b'/' part → All (Lacks b'/') (split_onto b'/' part s)
unfolding split_onto
split_onto-All part [] h = (h, tt)
split_onto-All part (c ∷ s) h = elim (Bool-cases (c == b'/')) [
  | inl b ↦ rw b (h, split_onto-All [] s tt)
  | inr b ↦ rw b (split_onto-All (part ++ (c ∷ [])) s (All-append _ part (c ∷ []) h (b, tt)))
]

drop_one-All : (kept : List Bytes) → All IsElement kept → All IsElement (drop 1 kept)
drop_one-All [] h = tt
drop_one-All (e ∷ kept) h = h.1

push_element-All :
    (e : Bytes) (kept : List Bytes)
    → Lacks b'/' e
    → All IsElement kept
    → All IsElement (push_element e kept)
unfolding push_element
push_element-All e kept l h = elim (Bool-cases (is_empty e || str_eq e (codes "."))) [
  | inl b ↦ rw b h
  | inr b ↦ elim (Bool-cases (str_eq e (codes ".."))) [
    | inl c ↦ rw (b, c) (drop_one-All kept h)
    | inr c ↦ rw (b, c) ((ground arith, l, ground arith, c), h)
  ]
]

push_elements-All :
    (es kept : List Bytes)
    → All (Lacks b'/') es
    → All IsElement kept
    → All IsElement (push_elements es kept)
unfolding push_elements
push_elements-All [] kept l h = h
push_elements-All (e ∷ es) kept (l, ls) h =
    push_elements-All es (push_element e kept) ls (push_element-All e kept l h)

reverse-All : (P : Bytes → Type 0) (es : List Bytes) → All P es → All P (reverse es)
reverse-All P [] h = tt
reverse-All P (e ∷ es) (p, h) =
    subst (All P) (sym (reverse-cons e es))
      (All-append P (reverse es) (e ∷ []) (reverse-All P es h) (p, tt))

push_elements-good :
    (es kept : List Bytes) → All IsElement es → push_elements es kept ≡ reverse es ++ kept
unfolding push_elements push_element
push_elements-good [] kept h = refl
push_elements-good (e ∷ es) kept ((a, l, b, c), h) =
    rw (a, b, c)
      (push_elements-good es (e ∷ kept) h
        ∙ rw reverse-cons (sym (append_assoc (reverse es) (e ∷ []) kept)))

push_elements-blank :
    (es kept : List Bytes) → push_elements (es ++ ([] ∷ [])) kept ≡ push_elements es kept
unfolding push_elements push_element
push_elements-blank [] kept = refl
push_elements-blank (e ∷ es) kept = push_elements-blank es (push_element e kept)

-- The elements joined again, with a slash behind them or not.
split-joined :
    (e : Bytes) (es : List Bytes)
    → All IsElement (e ∷ es)
    → (split b'/' (join (codes "/") (e ∷ es)) ≡ e ∷ es)
      × (split b'/' (join (codes "/") (e ∷ es) ++ codes "/") ≡ (e ∷ es) ++ ([] ∷ []))
unfolding join split
split-joined e [] ((a, l, _, _), h) = (split-Lacks b'/' e l, split-append b'/' e [] l)
split-joined e (d ∷ es) ((a, l, _, _), h) =
    let (x, y) = split-joined d es h in
    let rest = join (codes "/") (d ∷ es) in
    (
      split-append b'/' e rest l ∙ ap (◌∷◌ e) x,
      ap (split b'/') (append_assoc e (b'/' ∷ rest) (codes "/"))
          ∙ split-append b'/' e (rest ++ codes "/") l
          ∙ ap (◌∷◌ e) y,
    )

last_is_slash-append :
    (s : Bytes) (c : ℕ) (t : Bytes) → last_is_slash (s ++ (c ∷ t)) ≡ last_is_slash (c ∷ t)
last_is_slash-append [] c t = refl
last_is_slash-append (d ∷ []) c t = refl
last_is_slash-append (d ∷ e ∷ s) c t = last_is_slash-append (e ∷ s) c t

last_is_slash-Lacks : (s : Bytes) → is_empty s ≡ false → Lacks b'/' s → last_is_slash s ≡ false
last_is_slash-Lacks [] n l = absurd (ground arith)
last_is_slash-Lacks (c ∷ []) n l = l.0
last_is_slash-Lacks (c ∷ d ∷ s) n l = last_is_slash-Lacks (d ∷ s) refl l.1

slash-front : (s : Bytes) → is_empty s ≡ false → last_is_slash (b'/' ∷ s) ≡ last_is_slash s
slash-front [] n = absurd (ground arith)
slash-front (c ∷ s) n = refl

joined-no_slash :
    (e : Bytes) (es : List Bytes)
    → All IsElement (e ∷ es)
    → (is_empty (join (codes "/") (e ∷ es)) ≡ false)
      × (last_is_slash (join (codes "/") (e ∷ es)) ≡ false)
unfolding join
joined-no_slash e [] ((a, l, _, _), h) = (a, last_is_slash-Lacks e a l)
joined-no_slash [] (d ∷ es) ((a, l, _, _), h) = absurd (ground arith)
joined-no_slash (c ∷ e) (d ∷ es) (_, h) =
    let (x, y) = joined-no_slash d es h in
    (
      refl,
      last_is_slash-append (c ∷ e) b'/' (join (codes "/") (d ∷ es))
          ∙ slash-front (join (codes "/") (d ∷ es)) x
          ∙ y,
    )

elements_of : (p : Bytes) → List Bytes
elements_of p = reverse (push_elements (split b'/' p) [])

elements_of-IsElement : (p : Bytes) → All IsElement (elements_of p)
unfolding elements_of split
elements_of-IsElement p =
    reverse-All IsElement (push_elements (split b'/' p) [])
      (push_elements-All (split b'/' p) [] (split_onto-All [] p tt) tt)

push-back : (es : List Bytes) → All IsElement es → reverse (push_elements es []) ≡ es
push-back es h =
    rw (push_elements-good es [] h) (ap reverse (append-nil (reverse es)) ∙ reverse-reverse es)

-- A canonical path, with a slash behind it or not, is its own canonical path.
clean_rooted-joined :
    (e : Bytes) (es : List Bytes)
    → All IsElement (e ∷ es)
    → (clean_rooted (join (codes "/") (e ∷ es)) ≡ b'/' ∷ join (codes "/") (e ∷ es))
      × (clean_rooted (join (codes "/") (e ∷ es) ++ codes "/") ≡ b'/' ∷ join (codes "/") (e ∷ es))
unfolding clean_rooted
clean_rooted-joined e es h =
    let (x, y) = split-joined e es h in
    let back = push-back (e ∷ es) h in
    (
      ap (λ s. b'/' ∷ join (codes "/") (reverse (push_elements s []))) x
          ∙ ap (λ s. b'/' ∷ join (codes "/") s) back,
      ap (λ s. b'/' ∷ join (codes "/") (reverse (push_elements s []))) y
          ∙ ap (λ s. b'/' ∷ join (codes "/") (reverse s)) (push_elements-blank (e ∷ es) [])
          ∙ ap (λ s. b'/' ∷ join (codes "/") s) back,
    )

Canonical : Bytes → Type 0
Canonical q = clean_path q ≡ q

root-Canonical : Canonical (codes "/")
unfolding Canonical clean_path clean_rooted split str_eq join
root-Canonical = refl

not_root : (s : Bytes) → is_empty s ≡ false → str_eq (b'/' ∷ s) (codes "/") ≡ false
unfolding str_eq
not_root [] n = absurd (ground arith)
not_root (c ∷ s) n = refl

module _ (p np : Bytes) where
  put_back-slash :
      last_is_slash (b'/' ∷ p) ≡ true
      → str_eq np (codes "/") ≡ false
      → put_back p np ≡ np ++ codes "/"
  put_back-slash b c = rw (b, c) refl

  put_back-none : last_is_slash (b'/' ∷ p) ≡ false → put_back p np ≡ np
  put_back-none b = rw b refl

joined-Canonical :
    (e : Bytes) (es : List Bytes)
    → All IsElement (e ∷ es)
    → Canonical (b'/' ∷ join (codes "/") (e ∷ es))
      × Canonical (b'/' ∷ (join (codes "/") (e ∷ es) ++ codes "/"))
unfolding Canonical clean_path
joined-Canonical e es h =
    let j = join (codes "/") (e ∷ es) in
    let (n, no_slash) = joined-no_slash e es h in
    let (x, y) = clean_rooted-joined e es h in
    let slash : last_is_slash (b'/' ∷ (j ++ codes "/")) ≡ true =
      last_is_slash-append (b'/' ∷ j) b'/' [] in
    (
      ap (put_back j) x ∙ put_back-none j (b'/' ∷ j) (slash-front j n ∙ no_slash),
      ap (put_back (j ++ codes "/")) y
          ∙ put_back-slash (j ++ codes "/") (b'/' ∷ j) slash (not_root j n),
    )

put_back-root : (p : Bytes) → put_back p (b'/' ∷ join (codes "/") []) ≡ codes "/"
unfolding join str_eq
put_back-root p = elim (Bool-cases (last_is_slash (b'/' ∷ p))) [
  | inl b ↦ rw b refl
  | inr b ↦ rw b refl
]

put_back-Canonical :
    (p : Bytes) (es : List Bytes)
    → All IsElement es
    → Canonical (put_back p (b'/' ∷ join (codes "/") es))
put_back-Canonical p [] h = subst Canonical (sym (put_back-root p)) root-Canonical
put_back-Canonical p (e ∷ es) h =
    let (x, y) = joined-Canonical e es h in
    let apart = not_root (join (codes "/") (e ∷ es)) (joined-no_slash e es h).0 in
    elim (Bool-cases (last_is_slash (b'/' ∷ p))) [
      | inl b ↦
          subst Canonical (sym (put_back-slash p (b'/' ∷ join (codes "/") (e ∷ es)) b apart)) y
      | inr b ↦ subst Canonical (sym (put_back-none p (b'/' ∷ join (codes "/") (e ∷ es)) b)) x
    ]

-- `cleanPath` of a path that it has returned is that path.
clean_path_idem : (p : Bytes) → clean_path (clean_path p) ≡ clean_path p
unfolding Canonical clean_path clean_rooted elements_of
clean_path_idem [] = root-Canonical
clean_path_idem (c ∷ p) =
    let rest = if c == b'/' then p else c ∷ p in
    put_back-Canonical rest (elements_of rest) (elements_of-IsElement rest)

module _ {ℓ} {H : Type ℓ} (m : ServeMux H) (host path q : Bytes) where
  redirected_inj : (p : Bytes) → ◌≡◌ {A = Served H} (redirected p) (redirected q) → p ≡ q
  redirected_inj p e = ap (λ x. elim x [ redirected y ↦ y | handled h ↦ p | not_found ↦ p ]) e

  found_stays : (by_host by_path : Option H) → Mux.found by_host by_path ≢ redirected q
  found_stays none none e = absurd (ground arith)
  found_stays none (some h) e = absurd (ground arith)
  found_stays (some h) by_path e = absurd (ground arith)

  redirect_to : serve_http m host path ≡ redirected q → q ≡ clean_path path
  unfolding serve_http
  redirect_to e = elim (Bool-cases (str_eq (clean_path path) path)) [
    | inl b ↦ absurd (found_stays (match m (host ++ path)) (match m path) (rw (serve_http, b) at e))
    | inr b ↦ sym (redirected_inj (clean_path path) (rw (serve_http, b) at e))
  ]

-- The redirect to a clean path leads to a path that is clean: ServeHTTP does not redirect it for that
-- again, whatever the map and the hosts. The handler that it finds there may redirect, as the one that
-- Handle puts beside a pattern with a slash at its end does.
pub serve_http-redirected {ℓ} :
    {H : Type ℓ} (m : ServeMux H) (host path q : Bytes)
    → serve_http m host path ≡ redirected q
    → (again r : Bytes) → serve_http m again q ≢ redirected r
unfolding serve_http
serve_http-redirected m host path q e again r f =
    let same : q ≡ clean_path q =
      redirect_to m host path q e
      ∙ sym (clean_path_idem path)
      ∙ ap clean_path (sym (redirect_to m host path q e)) in
    let equal : str_eq (clean_path q) q ≡ true = (str_eq_iff (clean_path q) q).1 (sym same) in
    found_stays m again q r (match m (again ++ q)) (match m q) (rw (serve_http, equal) at f)
