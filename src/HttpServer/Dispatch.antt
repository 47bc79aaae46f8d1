-- ===== src/HttpServer/Dispatch.antt =====
-- `Server.process` (server/server.go): the extensions and the subservers, by their prefixes. An
-- extension is what its ReadRequest makes of a request, `none` for an error.
use go_http.Prelude.{
  ℕ, suc, ◌≡◌, refl, sym, ap, false, List, [], ◌∷◌, ◌++◌, Option, none, some, Bytes, length, drop,
  has_prefix, has_prefix_iff, All, subst, ◌⊎◌, Bool-cases, inl, inr, if_true, if_false,
  if◌then◌else◌,
}
use go_http.Requests.{Request}

-- What comes of a query: it is dropped for an extension's error, served by a subserver, by its number,
-- or handed to the caller of `Read`.
pub data Processed : Type 0 where
  dropped : Processed
  served : ℕ → Request → Processed
  handed : Request → Processed

-- the extensions whose prefix the path has, in turn
unfoldable pub extend : Bytes → List (Bytes × (Request → Option Request)) → Request → Option Request
unfolding has_prefix
extend path [] r = some r
extend path ((prefix, ext) ∷ exts) r =
    if has_prefix path prefix
    then elim (ext r) [ none ↦ none | some q ↦ extend path exts q ]
    else extend path exts r

abbrev later : Option (ℕ × Bytes) → Option (ℕ × Bytes)
later none = none
later (some (i, rest)) = some (suc i, rest)

-- the first subserver whose prefix the path has, and the path behind it
unfoldable pub find_sub : List Bytes → Bytes → Option (ℕ × Bytes)
unfolding has_prefix
find_sub [] path = none
find_sub (prefix ∷ subs) path =
    let rest = find_sub subs path in
    if has_prefix path prefix then some (0, drop (length prefix) path) else later rest

unfoldable pub dispatch : List Bytes → Request → Processed
unfolding find_sub
dispatch subs r = elim (find_sub subs r.url.path) [
  | none ↦ handed r
  | some (i, rest) ↦ served i (record r { url = record r.url { path = rest } })
]

-- `process`, on the paths at which the extensions and the subservers are
unfoldable pub process :
    List (Bytes × (Request → Option Request)) → List Bytes → Request → Processed
unfolding extend dispatch
process exts subs r = elim (extend r.url.path exts r) [ none ↦ dropped | some q ↦ dispatch subs q ]

-- What a search for a prefix comes to: no subserver has one, or the first that has.
pub data Found (subs : List Bytes) (path : Bytes) : Option (ℕ × Bytes) → Type 0 where
  nowhere : All (λ u. has_prefix path u ≡ false) subs → Found subs path none
  first :
      (before after : List Bytes) (prefix rest : Bytes)
      → subs ≡ before ++ (prefix ∷ after)
      → All (λ u. has_prefix path u ≡ false) before
      → prefix ++ rest ≡ path
      → Found subs path (some (length before, rest))

later-Found :
    (prefix : Bytes) (subs : List Bytes) (path : Bytes) (o : Option (ℕ × Bytes))
    → has_prefix path prefix ≡ false
    → Found subs path o
    → Found (prefix ∷ subs) path (later o)
later-Found prefix subs path o e (nowhere h) = nowhere (e, h)
later-Found prefix subs path o e (first before after found rest s h p) =
    first (prefix ∷ before) after found rest (ap (λ us. prefix ∷ us) s) (e, h) p

find_sub-Found : (subs : List Bytes) (path : Bytes) → Found subs path (find_sub subs path)
unfolding find_sub
find_sub-Found [] path = nowhere tt
find_sub-Found (prefix ∷ subs) path = elim (Bool-cases (has_prefix path prefix)) [
  | inl fits ↦
      subst (Found (prefix ∷ subs) path) (sym (if_true (has_prefix path prefix) _ _ fits)) (
        first [] subs prefix (drop (length prefix) path) refl tt
          ((has_prefix_iff path prefix).0 fits))
  | inr other ↦
      subst (Found (prefix ∷ subs) path) (sym (if_false (has_prefix path prefix) _ _ other))
        (later-Found prefix subs path (find_sub subs path) other (find_sub-Found subs path))
]

-- A query that the extensions let pass goes to the first subserver in the list whose prefix its path
-- has, though there may be a longer one behind it, with the rest of the path; and if there is none, it
-- is handed to the caller as the extensions have left it.
pub process_first :
    (exts : List (Bytes × (Request → Option Request))) (subs : List Bytes) (r q : Request)
    → extend r.url.path exts r ≡ some q
    → ((process exts subs r ≡ handed q) × All (λ u. has_prefix q.url.path u ≡ false) subs)
      ⊎ ((before after : List Bytes) × (prefix rest : Bytes) × (process exts subs r
            ≡ served (length before) (record q { url = record q.url { path = rest } }))
          × (subs ≡ before ++ (prefix ∷ after))
          × All (λ u. has_prefix q.url.path u ≡ false) before
          × (prefix ++ rest ≡ q.url.path))
unfolding process dispatch
process_first exts subs r q e =
    by_search (find_sub subs q.url.path) (find_sub-Found subs q.url.path) (rw (e, process) refl)
  where
    by_search :
        (o : Option (ℕ × Bytes))
        → Found subs q.url.path o
        → process exts subs r ≡ elim o [
          | none ↦ handed q
          | some (i, rest) ↦ served i (record q { url = record q.url { path = rest } })
        ]
        → ((process exts subs r ≡ handed q) × All (λ u. has_prefix q.url.path u ≡ false) subs)
          ⊎ ((before after : List Bytes) × (prefix rest : Bytes) × (process exts subs r
                ≡ served (length before) (record q { url = record q.url { path = rest } }))
              × (subs ≡ before ++ (prefix ∷ after))
              × All (λ u. has_prefix q.url.path u ≡ false) before
              × (prefix ++ rest ≡ q.url.path))
    by_search o (nowhere h) s = inl (s, h)
    by_search o (first before after prefix rest a h p) s =
        inr (before, after, prefix, rest, s, a, h, p)
