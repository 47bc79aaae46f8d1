-- ===== src/Range/Negative.antt =====
-- A suffix with a negative length in `parseRange` (http/fs.go).
use go_http.Prelude.{
  ℕ, suc, ◌^◌, ◌<◌, false, [], ◌∷◌, ◌++◌, Bytes, codes, ◌≡◌, refl, arith, Lacks, split-Lacks,
  index_byte, has_prefix, some, ◌==◌,
}
use go_http.Int.{pos, negsuc, ◌-ℤ◌}
use go_http.Strconv.{atoi64, itoa64, uitob64, digit_char}
use go_http.Strconv.Laws.{atoi64-itoa64, uitob64-All}
use go_http.Range.{HttpRange, to_int64, suffix_range, parse_one, parse_each, parse_range}
use go_http.Range.Bounds.{negative_length, min-negative}

digit_char-comma : (d : ℕ) → d < 10 → (digit_char d == b',') ≡ false
unfolding digit_char
digit_char-comma d h = ground arith

parse_each-negative :
    (size n : ℕ) (end : Bytes)
    → atoi64 end ≡ some (negsuc n)
    → parse_each (pos size) ((b'-' ∷ end) ∷ [])
      ≡ some (
          record {
            start = to_int64 (pos size -ℤ negsuc n);
            length = to_int64 (pos size -ℤ to_int64 (pos size -ℤ negsuc n));
          }
          ∷ [])
unfolding parse_each parse_one suffix_range index_byte
parse_each-negative size n end e = rw (parse_each, parse_one, e, min-negative size n) refl

-- A length below zero comes up: for a file of fewer than 2^63 bytes, `bytes=--n` is accepted and
-- gives one range, of the length -n, for every n from 1 up to 2^63.
pub parse_range_negative :
    (size n : ℕ)
    → size < 2 ^ 63
    → n < 2 ^ 63
    → (r : HttpRange) × (parse_range (codes "bytes=--" ++ uitob64 (suc n) 10) (pos size)
        ≡ some (r ∷ []))
      × (r.length ≡ negsuc n)
unfolding parse_range has_prefix itoa64
parse_range_negative size n h k =
    let text = b'-' ∷ uitob64 (suc n) 10 in
    let lacks : Lacks b',' (b'-' ∷ text) = (
      refl,
      (refl, uitob64-All 10 (omega arith) (λ c. (c == b',') ≡ false) digit_char-comma (suc n)),
    ) in
    let one = split-Lacks b',' (b'-' ∷ text) lacks in
    (
      record {
        start = to_int64 (pos size -ℤ negsuc n);
        length = to_int64 (pos size -ℤ to_int64 (pos size -ℤ negsuc n));
      },
      rw one (parse_each-negative size n text ((atoi64-itoa64 n k).1)),
      negative_length size n h k,
    )
