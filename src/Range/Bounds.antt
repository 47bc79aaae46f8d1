-- ===== src/Range/Bounds.antt =====
-- The ranges that `parseRange` (http/fs.go) returns lie in the file, but for one kind.
use go_http.Prelude.{
  ℕ, zero, suc, ◌+◌, ◌-◌, ◌^◌, ◌≤◌, ◌<◌, false, List, [], ◌∷◌, Bytes, codes, ◌≡◌, refl, ap, sym,
  ◌∙◌, arith, tests, is_empty, min, take, drop, index_byte, split, ltb, leb, has_prefix, Option,
  none, some, All, ◌⊎◌, inl, inr, Option-cases, Bool-cases, lt→ltb, ltb→lt,
}
use native.Mathlib.Nat.{mod-eq_of_lt}
use go_http.Int.{ℤ, pos, negsuc, ◌+ℤ◌, ◌-ℤ◌}
use go_http.Strconv.{atoi64}
use go_http.Strconv.Laws.{atoi64_low}
use go_http.Range.{
  HttpRange, min_ℤ, to_int64, suffix_range, ended_range, started_range, parse_one, parse_each,
  parse_range,
}

abbrev InFile : ℕ → HttpRange → Type 0
InFile size r = (a : ℕ) × (n : ℕ) × (r.start ≡ pos a) × (r.length ≡ pos n) × (a + n ≤ size)

abbrev IsNegative : HttpRange → Type 0
IsNegative r = (k : ℕ) × (r.length ≡ negsuc k)

to_int64-small : (n : ℕ) → n < 2 ^ 63 → to_int64 (pos n) ≡ pos n
unfolding to_int64
to_int64-small n h =
    let small : n < 2 ^ 64 = omega arith in
    rw (to_int64, mod-eq_of_lt small, lt→ltb n (2 ^ 63) h) refl

sub-small : (a b : ℕ) → b ≤ a → pos a -ℤ pos b ≡ pos (a - b)
unfolding ◌-ℤ◌
sub-small a b h = ground arith

diff-small : (a b : ℕ) → b ≤ a → a < 2 ^ 63 → to_int64 (pos a -ℤ pos b) ≡ pos (a - b)
diff-small a b h k = rw (sub-small a b h) (to_int64-small (a - b) (omega arith))

list_inj : {qs rs : List HttpRange} → some qs ≡ some rs → qs ≡ rs
list_inj {qs = qs} e = ap (λ o. elim o [ none ↦ qs | some x ↦ x ]) e

get_or : HttpRange → Option HttpRange → HttpRange
get_or d none = d
get_or d (some r) = r

some_inj : (q r : HttpRange) → some q ≡ some r → q ≡ r
unfolding get_or
some_inj q r e = ap (get_or q) e

in_file :
    (size a n : ℕ) (z : ℤ) (r : HttpRange)
    → z ≡ pos n
    → a + n ≤ size
    → some (record { start = pos a; length = z }) ≡ some r
    → InFile size r
in_file size a n z r e h p =
    let q : HttpRange = record { start = pos a; length = z } in
    let same = some_inj q r p in
    (a, n, sym (ap (λ x. x.start) same), sym (ap (λ x. x.length) same) ∙ e, h)

add_one : (n : ℕ) → pos n +ℤ pos 1 ≡ pos (suc n)
unfolding ◌+ℤ◌
add_one n = ground arith

-- `i - r.start + 1`, where the end may stand one before the start
span :
    (a l : ℕ)
    → a ≤ suc l
    → suc l < 2 ^ 63
    → to_int64 (to_int64 (pos l -ℤ pos a) +ℤ pos 1) ≡ pos (suc l - a)
span a l h k = elim (Bool-cases (leb a l)) [
  | inl b ↦
      let low : a ≤ l = omega (tests, b) in
      let same : suc (l - a) ≡ suc l - a = omega arith in
      rw (diff-small l a low (omega arith), add_one (l - a), same)
        (to_int64-small (suc l - a) (omega arith))
  | inr b ↦
      let eq : a ≡ suc l = ground arith in
      let under : pos l -ℤ pos (suc l) ≡ negsuc 0 = unfold ◌-ℤ◌ in ground arith in
      let none_left : suc l - suc l ≡ 0 = omega arith in
      rw (eq, under, none_left) (unfold ◌+ℤ◌ to_int64 in refl)
]

past :
    (size a : ℕ)
    → a ≤ size
    → size < 2 ^ 63
    → to_int64 (to_int64 (to_int64 (pos size -ℤ pos 1) -ℤ pos a) +ℤ pos 1) ≡ pos (size - a)
past zero zero h k = unfold ◌+ℤ◌ ◌-ℤ◌ to_int64 in refl
past zero (suc a) h k = absurd (omega arith)
past (suc l) a h k =
    let same : suc l - 1 ≡ l = omega arith in
    rw (diff-small (suc l) 1 (omega arith) k, same) (span a l h k)

ended-InFile :
    (size a : ℕ) (o : Option ℤ) (r : HttpRange)
    → size < 2 ^ 63
    → a ≤ size
    → ended_range (pos size) (pos a) o ≡ some r
    → InFile size r
unfolding ended_range
ended-InFile size a none r h k e = absurd (ground arith)
ended-InFile size a (some (negsuc i)) r h k e = absurd (ground arith)
ended-InFile size a (some (pos i)) r h k e = elim (Bool-cases (ltb i a)) [
  | inl b ↦ absurd (ground arith)
  | inr b ↦
      let late : a ≤ i = ground arith in
      elim (Bool-cases (ltb i size)) [
        | inl c ↦
            let inside : i < size = ltb→lt i size c in
            in_file size a (suc i - a) _ r (span a i (omega arith) (omega arith)) (omega arith)
              (ground (arith, e))
        | inr c ↦ in_file size a (size - a) _ r (past size a k h) (omega arith) (ground (arith, e))
      ]
]

started-InFile :
    (size : ℕ) (o : Option ℤ) (end : Bytes) (r : HttpRange)
    → size < 2 ^ 63
    → started_range (pos size) o end ≡ some r
    → InFile size r
unfolding started_range
started-InFile size none end r h e = absurd (ground arith)
started-InFile size (some (negsuc i)) end r h e = absurd (ground arith)
started-InFile size (some (pos i)) end r h e = elim (Bool-cases (ltb size i)) [
  | inl b ↦ absurd (ground arith)
  | inr b ↦
      let low : i ≤ size = ground arith in
      elim (Bool-cases (is_empty end)) [
        | inl c ↦
            in_file size i (size - i) _ r (diff-small size i low h) (omega arith)
              (ground (arith, e))
        | inr c ↦ ended-InFile size i (atoi64 end) r h low (ground (arith, e))
      ]
]

minus_minus : (size k : ℕ) → pos size -ℤ negsuc k ≡ pos (size + suc k)
unfolding ◌-ℤ◌
minus_minus size k = ground arith

to_int64-large :
    (n : ℕ) → ltb n (2 ^ 63) ≡ false → n < 2 ^ 64 → to_int64 (pos n) ≡ negsuc (2 ^ 64 - 1 - n)
unfolding to_int64
to_int64-large n h k = rw (to_int64, mod-eq_of_lt k, h) refl

to_int64-negative : (k : ℕ) → k < 2 ^ 63 → to_int64 (negsuc k) ≡ negsuc k
unfolding to_int64
to_int64-negative k h =
    let small : k < 2 ^ 64 = omega arith in
    rw (to_int64, mod-eq_of_lt small, lt→ltb k (2 ^ 63) h) refl

-- A suffix of a negative length: it wraps around or not, the length is what the text says.
pub negative_length :
    (size k : ℕ)
    → size < 2 ^ 63
    → k < 2 ^ 63
    → to_int64 (pos size -ℤ to_int64 (pos size -ℤ negsuc k)) ≡ negsuc k
negative_length size k h low = elim (Bool-cases (ltb (size + suc k) (2 ^ 63))) [
  | inl b ↦
      let under : pos size -ℤ pos (size + suc k) ≡ negsuc k = unfold ◌-ℤ◌ in ground arith in
      rw (minus_minus size k, to_int64-small (size + suc k) (ltb→lt _ _ b), under)
        (to_int64-negative k low)
  | inr b ↦
      let wide : size + suc k < 2 ^ 64 = omega arith in
      let around : pos size -ℤ negsuc (2 ^ 64 - 1 - (size + suc k)) ≡ pos (2 ^ 64 - 1 - k) =
        minus_minus size _ ∙ ap pos (omega arith) in
      let high : ltb (2 ^ 64 - 1 - k) (2 ^ 63) ≡ false = ground arith in
      let back : 2 ^ 64 - 1 - (2 ^ 64 - 1 - k) ≡ k = omega arith in
      rw
        (
          minus_minus size k,
          to_int64-large (size + suc k) b wide,
          around,
          to_int64-large (2 ^ 64 - 1 - k) high (omega arith),
          back,
        )
        refl
]

pub min-negative : (size k : ℕ) → min_ℤ (negsuc k) (pos size) ≡ negsuc k
min-negative size k = ground arith

min-natural : (size i : ℕ) → (m : ℕ) × (m ≤ size) × (min_ℤ (pos i) (pos size) ≡ pos m)
min-natural size i = (min i size, omega arith, ground arith)

suffix_cases :
    (size : ℕ) (o : Option ℤ) (r : HttpRange)
    → size < 2 ^ 63
    → ((k : ℕ) → o ≡ some (negsuc k) → k < 2 ^ 63)
    → suffix_range (pos size) o ≡ some r
    → InFile size r ⊎ ((k : ℕ) × (o ≡ some (negsuc k)) × (r.length ≡ negsuc k))
unfolding suffix_range
suffix_cases size none r h low e = absurd (ground arith)
suffix_cases size (some (negsuc k)) r h low e =
    let same = some_inj _ r (rw (min-negative size k) at e) in
    inr (k, refl, sym (ap (λ x. x.length) same) ∙ negative_length size k h (low k refl))
suffix_cases size (some (pos i)) r h low e =
    let (m, most, least) = min-natural size i in
    let from_start : to_int64 (pos size -ℤ pos m) ≡ pos (size - m) = diff-small size m most h in
    let rest : size - (size - m) ≡ m = omega arith in
    inl (
      in_file size (size - m) m _ r (diff-small size (size - m) (omega arith) h ∙ ap pos rest)
        (omega arith) (rw (suffix_range, least, from_start) at e))

parse_one_cases :
    (size : ℕ) (ra : Bytes) (r : HttpRange)
    → size < 2 ^ 63
    → parse_one (pos size) ra ≡ some r
    → InFile size r ⊎ ((k : ℕ) × (r.length ≡ negsuc k))
unfolding parse_one
parse_one_cases size ra r h e = elim (Option-cases (index_byte b'-' ra)) [
  | inl p ↦ absurd (ground arith)
  | inr (i, p) ↦
      let start = take i ra in
      let end = drop (suc i) ra in
      elim (Bool-cases (is_empty start)) [
        | inl b ↦
            elim (suffix_cases size (atoi64 end) r h (atoi64_low end) (rw (parse_one, p, b) at e)) [
              | inl inside ↦ inl inside
              | inr (k, _, l) ↦ inr (k, l)
            ]
        | inr b ↦ inl (started-InFile size (atoi64 start) end r h (rw (parse_one, p, b) at e))
      ]
]

abbrev pub Placed : ℕ → HttpRange → Type 0
Placed size r =
    ((a : ℕ) × (n : ℕ) × (r.start ≡ pos a) × (r.length ≡ pos n) × (a + n ≤ size))
    ⊎ ((k : ℕ) × (r.length ≡ negsuc k))

parse_each-Placed :
    (size : ℕ) (ras : List Bytes) (rs : List HttpRange)
    → size < 2 ^ 63
    → parse_each (pos size) ras ≡ some rs
    → All (Placed size) rs
unfolding parse_each
parse_each-Placed size [] rs h e = let e' : [] ≡ rs = list_inj e in rw (sym e') tt
parse_each-Placed size (ra ∷ ras) rs h e = elim (Option-cases (parse_one (pos size) ra)) [
  | inl p ↦ absurd (ground arith)
  | inr (r, p) ↦ elim (Option-cases (parse_each (pos size) ras)) [
    | inl q ↦ absurd (ground arith)
    | inr (more, q) ↦
        let e' : r ∷ more ≡ rs = list_inj (rw (parse_each, p, q) at e) in
        rw (sym e') (parse_one_cases size ra r h p, parse_each-Placed size ras more h q)
  ]
]

-- For a file of fewer than 2^63 bytes, every range that `parseRange` returns lies within the file,
-- or it has a length below zero.
pub parse_range_bounds :
    (s : Bytes) (size : ℕ) (rs : List HttpRange)
    → size < 2 ^ 63
    → parse_range s (pos size) ≡ some rs
    → All (Placed size) rs
unfolding parse_range
parse_range_bounds s size rs h e = elim (Bool-cases (is_empty s)) [
  | inl b ↦ let e' : [] ≡ rs = list_inj (rw (parse_range, b) at e) in rw (sym e') tt
  | inr b ↦ elim (Bool-cases (has_prefix s (codes "bytes="))) [
    | inl c ↦ parse_each-Placed size (split b',' (drop 6 s)) rs h (rw (parse_range, b, c) at e)
    | inr c ↦ absurd (ground arith)
  ]
]
