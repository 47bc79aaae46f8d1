-- ===== src/Range/Tests.antt =====
-- Runs of `parseRange` (http/fs.go), from http/range_test.go.
use go_http.Prelude.{
  ◌≡◌, refl, [], ◌∷◌, ◌++◌, some, none, codes, arith, All, has_prefix, split, index_byte,
}
use go_http.Int.{pos, negsuc, ◌-ℤ◌, ◌+ℤ◌}
use go_http.Strconv.{uitob64, atoi64}
use go_http.Range.{HttpRange, parse_range, to_int64}
use go_http.Range.Negative.{parse_range_negative}
use go_http.Range.Bounds.{Placed, parse_range_bounds}

range_runs :
    (parse_range (codes "bytes=0-4,-2") (pos 10)
      ≡ some (
          record { start = pos 0; length = pos 5 } ∷ record { start = pos 8; length = pos 2 } ∷ []))
    × (parse_range (codes "bytes=5-4") (pos 10) ≡ none)
    × (parse_range (codes "bytes=--5") (pos 10)
        ≡ some (record { start = pos 15; length = negsuc 4 } ∷ []))
unfolding parse_range has_prefix split index_byte atoi64 to_int64 ◌-ℤ◌ ◌+ℤ◌
range_runs = (refl, refl, refl)

parse_range_bounds_example :
    All
      (Placed 10)
      (record { start = pos 0; length = pos 5 } ∷ record { start = pos 8; length = pos 2 } ∷ [])
parse_range_bounds_example =
    parse_range_bounds (codes "bytes=0-4,-2") 10
      (record { start = pos 0; length = pos 5 } ∷ record { start = pos 8; length = pos 2 } ∷ [])
      (omega arith) range_runs.0

parse_range_negative_example :
    (r : HttpRange) × (parse_range (codes "bytes=--" ++ uitob64 5 10) (pos 10) ≡ some (r ∷ []))
    × (r.length ≡ negsuc 4)
parse_range_negative_example = parse_range_negative 10 4 (omega arith) (omega arith)
