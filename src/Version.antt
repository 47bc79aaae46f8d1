-- ===== src/Version.antt =====
-- `atoi` and `ParseHTTPVersion` of http/request.go.
pub mod Printed
mod Tests
use go_http.Prelude.{
  ℕ, zero, suc, ◌+◌, ◌-◌, ◌*◌, Bool, true, false, not, ◌&&◌, ◌||◌, List, [], ◌∷◌, Bytes, codes,
  str_eq, is_empty, length, take, drop, within, ltb, leb, ◌==◌, if◌then◌else◌, Option, none, some,
}

-- The loop over the digits: the number so far and the rest of the string, or `none` where the
-- number is too big.
unfoldable pub digits_from : ℕ → Bytes → Option (ℕ × Bytes)
digits_from n [] = some (n, [])
digits_from n (c ∷ cs) =
    let m = n * 10 + (c - b'0') in
    let rest = digits_from m cs in
    if within b'0' b'9' c then if ltb 1000000 m then none else rest else some (n, c ∷ cs)

-- `atoi`, on the string behind the position
unfoldable pub atoi : Bytes → Option (ℕ × Bytes)
unfolding digits_from
atoi [] = none
atoi (c ∷ cs) = if not (within b'0' b'9' c) then none else digits_from 0 (c ∷ cs)

abbrev minor_version : ℕ → Option (ℕ × Bytes) → Option (ℕ × ℕ)
minor_version major none = none
minor_version major (some (minor, rest)) = if is_empty rest then some (major, minor) else none

-- `ParseHTTPVersion` behind the "HTTP/"
unfoldable pub version_numbers : Bytes → Option (ℕ × ℕ)
unfolding atoi
version_numbers s = elim (atoi s) [
  | none ↦ none
  | some (major, rest) ↦ elim rest [
    | [] ↦ none
    | c ∷ cs ↦ if not (c == b'.') then none else minor_version major (atoi cs)
  ]
]

-- `ParseHTTPVersion`
unfoldable pub parse_http_version : Bytes → Option (ℕ × ℕ)
unfolding version_numbers
parse_http_version vers =
    if ltb (length vers) 5 || not (str_eq (take 5 vers) (codes "HTTP/"))
    then none
    else version_numbers (drop 5 vers)
