-- ===== src/Range.antt =====
-- `parseRange` of http/fs.go. An int64 is an integer, and its sums wrap around.
pub mod Bounds
pub mod Negative
mod Tests
use go_http.Prelude.{
  ℕ, zero, suc, ◌+◌, ◌-◌, ◌%◌, ◌^◌, Bool, true, false, not, ◌&&◌, ◌||◌, List, [], ◌∷◌, Bytes, codes,
  is_empty, length, take, drop, has_prefix, index_byte, split, ltb, leb, ◌==◌, if◌then◌else◌,
  Option, none, some,
}
use go_http.Int.{ℤ, pos, negsuc, ◌+ℤ◌, ◌-ℤ◌, ltb_ℤ}
use go_http.Strconv.{atoi64}

-- the int64 with the same low 64 bits
unfoldable pub to_int64 : ℤ → ℤ
to_int64 (pos n) = let m = n % 2 ^ 64 in if ltb m (2 ^ 63) then pos m else negsuc (2 ^ 64 - 1 - m)
to_int64 (negsuc n) =
    let m = n % 2 ^ 64 in if ltb m (2 ^ 63) then negsuc m else pos (2 ^ 64 - 1 - m)

-- `httpRange`
pub record HttpRange : Type 0 where
  pub start : ℤ
  pub length : ℤ

abbrev pub min_ℤ : ℤ → ℤ → ℤ
min_ℤ a b = if ltb_ℤ b a then b else a

-- A range with no start: the last bytes of the file.
unfoldable pub suffix_range : ℤ → Option ℤ → Option HttpRange
unfolding to_int64 ◌-ℤ◌
suffix_range size none = none
suffix_range size (some i) =
    let start = to_int64 (size -ℤ min_ℤ i size) in
    some (record { start = start; length = to_int64 (size -ℤ start) })

-- the end of a range with a start
unfoldable pub ended_range : ℤ → ℤ → Option ℤ → Option HttpRange
unfolding to_int64 ◌-ℤ◌ ◌+ℤ◌
ended_range size start none = none
ended_range size start (some i) =
    let last = if ltb_ℤ i size then i else to_int64 (size -ℤ pos 1) in
    if ltb_ℤ i start
    then none
    else some (record { start = start; length = to_int64 (to_int64 (last -ℤ start) +ℤ pos 1) })

-- A range with a start, and an end unless it is empty.
unfoldable pub started_range : ℤ → Option ℤ → Bytes → Option HttpRange
unfolding to_int64 ended_range
started_range size none end = none
started_range size (some i) end =
    if ltb_ℤ size i || ltb_ℤ i (pos 0)
    then none
    else if is_empty end
    then some (record { start = i; length = to_int64 (size -ℤ i) })
    else ended_range size i (atoi64 end)

-- one element of the list
unfoldable pub parse_one : ℤ → Bytes → Option HttpRange
unfolding suffix_range started_range
parse_one size ra = elim (index_byte b'-' ra) [
  | none ↦ none
  | some i ↦
      let start = take i ra in
      let end = drop (suc i) ra in
      if is_empty start
      then suffix_range size (atoi64 end)
      else started_range size (atoi64 start) end
]

abbrev prepend : Option HttpRange → Option (List HttpRange) → Option (List HttpRange)
prepend none rs = none
prepend (some r) none = none
prepend (some r) (some rs) = some (r ∷ rs)

-- the loop over the list
unfoldable pub parse_each : ℤ → List Bytes → Option (List HttpRange)
unfolding parse_one
parse_each size [] = some []
parse_each size (ra ∷ ras) = prepend (parse_one size ra) (parse_each size ras)

-- `parseRange`, with `none` for the error "invalid range"
unfoldable pub parse_range : Bytes → ℤ → Option (List HttpRange)
unfolding parse_each
parse_range s size =
    if is_empty s
    then some []
    else if not (has_prefix s (codes "bytes="))
    then none
    else parse_each size (split b',' (drop 6 s))
