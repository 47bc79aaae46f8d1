-- ===== src/Handlers/Rooted.antt =====
-- Where `Redirect` (http/server.go) sends a client to.
use go_http.Prelude.{
  ℕ, zero, suc, ◌≡◌, refl, sym, ap, subst, ◌∙◌, ◌⊎◌, inl, inr, Bool, true, false, not, ◌&&◌, [],
  ◌∷◌, ◌++◌, Option, none, some, Bytes, codes, arith, is_empty, index_byte, take, ◌==◌,
  if◌then◌else◌, if_true, if_false, if_intro, Option-cases,
}
use go_http.Transfer.{ok, panics}
use go_http.Requests.{Url, Request}
use go_http.Handlers.{
  split_dir, cut_query, begins_with_slash, ends_with_slash, relative_location, location,
}

abbrev Rooted : Bytes → Type 0
Rooted s = begins_with_slash s ≡ true

Rooted-append : (s t : Bytes) → Rooted s → Rooted (s ++ t)
Rooted-append [] t h = cc
Rooted-append (c ∷ s) t h = h

split_dir-Rooted : (s : Bytes) → Rooted s → Rooted (split_dir s)
unfolding split_dir
split_dir-Rooted [] h = cc
split_dir-Rooted (c ∷ s) h = if_intro2 (is_empty (split_dir s) && not (c == b'/')) c (split_dir s) h
  where
    if_intro2 :
        (b : Bool) (d : ℕ) (r : Bytes)
        → (d == b'/') ≡ true
        → Rooted (if is_empty r && not (d == b'/') then [] else d ∷ r)
    if_intro2 b d r k = ground arith

index_byte-Rooted : (s : Bytes) (i : ℕ) → Rooted s → index_byte b'?' s ≡ some i → Rooted (take i s)
unfolding index_byte
index_byte-Rooted [] i h e = cc
index_byte-Rooted (c ∷ s) zero h e = ground (arith, Option-cases (index_byte b'?' s))
index_byte-Rooted (c ∷ s) (suc i) h e = h

cut_query-Rooted : (s : Bytes) → Rooted s → Rooted (cut_query s).0
unfolding cut_query
cut_query-Rooted s h = elim (Option-cases (index_byte b'?' s)) [
  | inl n ↦ rw (n, cut_query) h
  | inr (i, e) ↦ rw (e, cut_query) (index_byte-Rooted s i h e)
]

Rooted-not_empty : (s : Bytes) → Rooted s → is_empty s ≡ false
Rooted-not_empty [] h = cc
Rooted-not_empty (c ∷ s) h = refl

ok_inj : (a b : Bytes) → ok a ≡ ok b → a ≡ b
ok_inj a b e = cc

relative_location-Rooted :
    (clean : Bytes → Bytes) (oldpath url target : Bytes)
    → ((p : Bytes) → Rooted p → Rooted (clean p))
    → Rooted oldpath
    → relative_location clean oldpath url ≡ ok target
    → Rooted target
unfolding relative_location
relative_location-Rooted clean oldpath url target keeps old e =
    let rooted = if begins_with_slash url then url else split_dir oldpath ++ url in
    let path = (cut_query rooted).0 in
    let h : Rooted path =
      cut_query-Rooted rooted
        (ground (arith, Rooted-append (split_dir oldpath) url, split_dir-Rooted oldpath)) in
    let query = (cut_query rooted).1 in
    let cleaned = clean path in
    let slashed =
      if ends_with_slash path && not (ends_with_slash cleaned)
      then cleaned ++ (b'/' ∷ [])
      else cleaned in
    let begins : Rooted slashed =
      if_intro Rooted (ends_with_slash path && not (ends_with_slash cleaned))
        (Rooted-append cleaned (b'/' ∷ []) (keeps path h)) (keeps path h) in
    let same : ok (slashed ++ query) ≡ ok target =
      sym (if_false (is_empty path) panics (ok (slashed ++ query)) (Rooted-not_empty path h)) ∙ e in
    subst Rooted (ok_inj (slashed ++ query) target same) (Rooted-append slashed query begins)

-- A redirect to a URL with no scheme, from a request whose path is empty or begins with a slash, goes
-- to a path that begins with a slash, if it goes anywhere, and if `path.Clean` keeps a leading slash.
pub location-Rooted :
    (parse : Bytes → Option Url) (clean : Bytes → Bytes) (r : Request) (url target : Bytes)
    (u : Url)
    → ((p : Bytes) → begins_with_slash p ≡ true → begins_with_slash (clean p) ≡ true)
    → parse url ≡ some u
    → is_empty u.scheme ≡ true
    → (is_empty r.url.path ≡ true) ⊎ (begins_with_slash r.url.path ≡ true)
    → location parse clean r url ≡ ok target
    → begins_with_slash target ≡ true
unfolding location
location-Rooted parse clean r url target u keeps p none' path e =
    let old = if is_empty r.url.path then codes "/" else r.url.path in
    let h : Rooted old = ground arith in
    let step : location parse clean r url ≡ relative_location clean old url =
      ap
        (λ (o : Option Url). elim o [
          | none ↦ ok url
          | some x ↦ if is_empty x.scheme then relative_location clean old url else ok url
        ])
        p
      ∙ if_true (is_empty u.scheme) _ _ none' in
    relative_location-Rooted clean old url target keeps h (sym step ∙ e)
