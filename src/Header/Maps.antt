-- ===== src/Header/Maps.antt =====
-- The laws of `Add`, `Set`, `Get` and `Del` (http/header.go).
use go_http.Prelude.{
  Bool, List, [], ◌∷◌, ◌++◌, ◌≡◌, refl, Option, none, some, arith, Bytes, str_eq, str_eq_iff,
  str_eq_refl, ◌∙◌, if◌then◌else◌,
}
use go_http.Header.{
  Header, lookup, assign, delete, canonical_header_key, values_of, first_or_empty, index, add, set,
  get, del,
}

module _ {ℓ} {V : Type ℓ} where
  pub lookup-assign :
      (k j : Bytes) (v : V) (m : List (Bytes × V))
      → lookup j (assign k v m) ≡ (if str_eq k j then some v else lookup j m)
  unfolding lookup assign
  lookup-assign k j v [] = refl
  lookup-assign k j v ((i, w) ∷ m) =
      ground (arith, str_eq_iff k j, str_eq_iff i k, str_eq_iff i j, lookup-assign k j v m)

  pub lookup-delete :
      (k j : Bytes) (m : List (Bytes × V))
      → lookup j (delete k m) ≡ (if str_eq k j then none else lookup j m)
  unfolding lookup delete
  lookup-delete k j [] = ground arith
  lookup-delete k j ((i, w) ∷ m) =
      ground (arith, str_eq_iff k j, str_eq_iff i k, str_eq_iff i j, lookup-delete k j m)

abbrev pub same_key : Bytes → Bytes → Bool
same_key k j = str_eq (canonical_header_key k) (canonical_header_key j)

-- What `Get` and the map itself show after `Set`, `Del` and `Add`: `Set` replaces the values of the
-- key, `Del` removes them, `Add` appends one; every key of another canonical form keeps its values.
pub get_laws :
    (h : Header) (k j v : Bytes)
    → (get (set h k v) j ≡ (if same_key k j then v else get h j))
      × (get (del h k) j ≡ (if same_key k j then [] else get h j))
      × (index (add h k v) (canonical_header_key j) ≡ (
          if same_key k j
          then index h (canonical_header_key j) ++ (v ∷ [])
          else index h (canonical_header_key j)))
unfolding get set del add
get_laws h k j v =
    let kc = canonical_header_key k in
    let jc = canonical_header_key j in
    ground (
      arith,
      str_eq_iff kc jc,
      lookup-assign kc jc (v ∷ []) h,
      lookup-delete kc jc h,
      lookup-assign kc jc (index h kc ++ (v ∷ [])) h,
    )

-- At a key in canonical form.
module _ (k : Bytes) (canonical : canonical_header_key k ≡ k) where
  pub lookup-set : (h : Header) (v : Bytes) → lookup k (set h k v) ≡ some (v ∷ [])
  unfolding set
  lookup-set h v = rw canonical (lookup-assign k k (v ∷ []) h ∙ rw str_eq_refl)

  pub get-lookup :
      (h : Header) (o : Option (List Bytes))
      → lookup k h ≡ o
      → get h k ≡ first_or_empty (values_of o)
  unfolding get
  get-lookup h o e = rw (canonical, e)
