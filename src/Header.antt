-- ===== src/Header.antt =====
-- http/header.go, with the functions of package "net/textproto" that it calls. A Go map with
-- string keys is an association list in which `assign` keeps each key once.
pub mod Keys
pub mod Maps
pub mod Wire
mod Tests
use go_http.Prelude.{
  ℕ, ◌+◌, ◌-◌, Bool, true, false, not, ◌&&◌, List, [], ◌∷◌, ◌++◌, map, Option, none, some, Bytes,
  codes, ◌||◌, str_eq, lower, upper, trim_space, ltb, ◌==◌, if◌then◌else◌,
}

-- `Header`
abbrev pub Header : Type 0
Header = List (Bytes × List Bytes)

-- `h[key]`, with `none` for a key that is not present
unfoldable pub lookup {ℓ} : {V : Type ℓ} → Bytes → List (Bytes × V) → Option V
lookup key [] = none
lookup key ((k, v) ∷ h) = if str_eq k key then some v else lookup key h

-- `h[key] = v`
unfoldable pub assign {ℓ} : {V : Type ℓ} → Bytes → V → List (Bytes × V) → List (Bytes × V)
assign key v [] = (key, v) ∷ []
assign key v ((k, w) ∷ h) = if str_eq k key then (key, v) ∷ h else (k, w) ∷ assign key v h

-- `h[key] = nil, false` and `delete(h, key)`
unfoldable pub delete {ℓ} : {V : Type ℓ} → Bytes → List (Bytes × V) → List (Bytes × V)
delete key [] = []
delete key ((k, v) ∷ h) = let rest = delete key h in if str_eq k key then rest else (k, v) ∷ rest

-- The loop of `textproto.CanonicalMIMEHeaderKey`; the flag says that the next letter is upper case.
unfoldable pub canonical_from : Bool → Bytes → Bytes
unfolding upper lower
canonical_from up [] = []
canonical_from up (c ∷ cs) = (if up then upper c else lower c) ∷ canonical_from (c == b'-') cs

-- `CanonicalHeaderKey`
unfoldable pub canonical_header_key : Bytes → Bytes
unfolding canonical_from
canonical_header_key s = canonical_from true s

abbrev pub values_of : Option (List Bytes) → List Bytes
values_of none = []
values_of (some vs) = vs

abbrev pub first_or_empty : List Bytes → Bytes
first_or_empty [] = []
first_or_empty (v ∷ vs) = v

-- `h[key]` where a missing key gives the nil slice
abbrev pub index : Header → Bytes → List Bytes
index h key = values_of (lookup key h)

-- `Header.Add`
unfoldable pub add : Header → Bytes → Bytes → Header
add h key value = let k = canonical_header_key key in assign k (index h k ++ (value ∷ [])) h

-- `Header.Set`
unfoldable pub set : Header → Bytes → Bytes → Header
set h key value = assign (canonical_header_key key) (value ∷ []) h

-- `Header.Get`
unfoldable pub get : Header → Bytes → Bytes
get h key = first_or_empty (index h (canonical_header_key key))

-- `Header.Del`
unfoldable pub del : Header → Bytes → Header
del h key = delete (canonical_header_key key) h

-- `s < t` on strings, bytewise
unfoldable pub str_lt : Bytes → Bytes → Bool
str_lt s [] = false
str_lt [] (y ∷ t) = true
str_lt (x ∷ s) (y ∷ t) = if ltb x y then true else x == y && str_lt s t

unfoldable pub insert_entry : Bytes × List Bytes → Header → Header
insert_entry e [] = e ∷ []
insert_entry e (f ∷ h) = if str_lt f.0 e.0 then f ∷ insert_entry e h else e ∷ f ∷ h

-- `sort.Strings(keys)`, with the values that each key stands for
unfoldable pub sort_entries : Header → Header
unfolding insert_entry
sort_entries [] = []
sort_entries (e ∷ h) = insert_entry e (sort_entries h)

-- `headerNewlineToSpace.Replace`
unfoldable pub newline_to_space : Bytes → Bytes
newline_to_space = map (λ c. if c == b'\n' || c == b'\r' then b' ' else c)

-- One line of `WriteSubset`.
unfoldable pub header_line : Bytes → Bytes → Bytes
unfolding newline_to_space
header_line k v = k ++ (codes ": " ++ (trim_space (newline_to_space v) ++ codes "\r\n"))

unfoldable pub header_lines : Bytes → List Bytes → Bytes
unfolding header_line
header_lines k [] = []
header_lines k (v ∷ vs) = header_line k v ++ header_lines k vs

unfoldable pub write_entries : Header → Bytes
unfolding header_lines
write_entries [] = []
write_entries ((k, vs) ∷ h) = header_lines k vs ++ write_entries h

unfoldable pub is_excluded : List Bytes → Bytes → Bool
is_excluded [] k = false
is_excluded (x ∷ xs) k = str_eq x k || is_excluded xs k

unfoldable pub included : List Bytes → Header → Header
unfolding is_excluded
included exclude [] = []
included exclude ((k, vs) ∷ h) =
    let rest = included exclude h in if is_excluded exclude k then rest else (k, vs) ∷ rest

-- The text that `WriteSubset` writes to a writer that takes it all; `exclude` lists the keys that
-- the map sends to true.
unfoldable pub write_subset : Header → List Bytes → Bytes
unfolding included sort_entries write_entries
write_subset h exclude = write_entries (sort_entries (included exclude h))

-- `Header.Write`
unfoldable pub write : Header → Bytes
unfolding write_subset
write h = write_subset h []
