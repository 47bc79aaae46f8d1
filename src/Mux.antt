-- ===== src/Mux.antt =====
-- The ServeMux of http/server.go, and `path.Clean` as it calls it.
pub mod Longest
pub mod Clean
mod Tests
use go_http.Prelude.{
  ℕ, zero, suc, ◌+◌, ◌-◌, Bool, true, false, not, ◌&&◌, ◌||◌, List, [], ◌∷◌, ◌++◌, Bytes, codes,
  str_eq, is_empty, length, take, drop, split, join, ltb, leb, ◌==◌, if◌then◌else◌, Option, none,
  some,
}
use mathlib.Core.List.{reverse}
use go_http.Header.{assign}

abbrev pub last_is_slash : Bytes → Bool
last_is_slash [] = false
last_is_slash (c ∷ []) = c == b'/'
last_is_slash (c ∷ d ∷ s) = last_is_slash (d ∷ s)

-- `pathMatch`
unfoldable pub path_match : Bytes → Bytes → Bool
path_match pattern path =
    if is_empty pattern
    then false
    else if not (last_is_slash pattern)
    then str_eq pattern path
    else leb (length pattern) (length path) && str_eq (take (length pattern) path) pattern

-- what `path.Clean` makes of the next element of a rooted path; the elements kept stand in reverse
unfoldable pub push_element : Bytes → List Bytes → List Bytes
push_element e kept =
    if is_empty e || str_eq e (codes ".")
    then kept
    else if str_eq e (codes "..")
    then drop 1 kept
    else e ∷ kept

unfoldable pub push_elements : List Bytes → List Bytes → List Bytes
unfolding push_element
push_elements [] kept = kept
push_elements (e ∷ es) kept = push_elements es (push_element e kept)

-- `path.Clean` of a path that begins with a slash, by what follows the slash
unfoldable pub clean_rooted : Bytes → Bytes
unfolding push_elements
clean_rooted p = b'/' ∷ join (codes "/") (reverse (push_elements (split b'/' p) []))

-- the trailing slash put back
abbrev pub put_back : Bytes → Bytes → Bytes
put_back p np =
    if last_is_slash (b'/' ∷ p) && not (str_eq np (codes "/")) then np ++ codes "/" else np

-- `cleanPath`
unfoldable pub clean_path : Bytes → Bytes
unfolding clean_rooted
clean_path [] = codes "/"
clean_path (c ∷ p) = let rest = if c == b'/' then p else c ∷ p in put_back rest (clean_rooted rest)

-- `ServeMux`, for handlers that are not nil
abbrev pub ServeMux {ℓ} : Type ℓ → Type ℓ
ServeMux H = List (Bytes × H)

-- What `ServeHTTP` does: a redirect to the path, the handler found, or not found.
pub data Served {ℓ} (H : Type ℓ) : Type ℓ where
  redirected : Bytes → Served H
  handled : H → Served H
  not_found : Served H

abbrev is_nil {ℓ} : {A : Type ℓ} → Option A → Bool
is_nil none = true
is_nil (some a) = false

module _ {ℓ} {H : Type ℓ} where
  -- the loop over the map, in any order: the best handler so far, and the length of its pattern
  unfoldable pub match_from : Option H → ℕ → ServeMux H → Bytes → Option H
  unfolding path_match
  match_from h n [] path = h
  match_from h n ((k, v) ∷ m) path =
      let same = match_from h n m path in
      let better = match_from (some v) (length k) m path in
      if not (path_match k path)
      then same
      else if is_nil h || ltb n (length k)
      then better
      else same

  -- `ServeMux.match`
  unfoldable pub match : ServeMux H → Bytes → Option H
  unfolding match_from
  match m path = match_from none 0 m path

  -- the handler for the host and the path, or for the path, or `NotFoundHandler()`
  abbrev pub found : Option H → Option H → Served H
  found (some h) by_path = handled h
  found none (some h) = handled h
  found none none = not_found

  -- `ServeMux.ServeHTTP`
  unfoldable pub serve_http : ServeMux H → (host path : Bytes) → Served H
  unfolding clean_path match
  serve_http m host path =
      let p = clean_path path in
      if not (str_eq p path) then redirected p else found (match m (host ++ path)) (match m path)

  -- `ServeMux.Handle`, with `none` for the panic; `redirect` is `RedirectHandler`
  unfoldable pub handle : (redirect : Bytes → H) → ServeMux H → Bytes → H → Option (ServeMux H)
  handle redirect m pattern handler =
      let with' = assign pattern handler m in
      let n = length pattern in
      if is_empty pattern
      then none
      else if last_is_slash pattern
      then some (assign (take (n - 1) pattern) (redirect pattern) with')
      else some with'
