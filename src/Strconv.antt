-- ===== src/Strconv.antt =====
-- The parts of Go's package "strconv" that the program calls. An error is `none`.
pub mod Laws
use go_http.Prelude.{
  ℕ, zero, suc, ◌+◌, ◌-◌, ◌*◌, ◌/◌, ◌%◌, ◌^◌, ◌≤◌, ◌<◌, false, [], ◌∷◌, ◌≡◌, ◌≢◌, refl, ◌∙◌, ap,
  sym, subst, Option, none, some, arith, Bytes, All, length, within, ltb, ◌==◌, if◌then◌else◌, inl,
  inr, Bool-cases, ltb→lt, lt→ltb,
}
use native.Mathlib.Nat.{
  le_trans, div-lt_self, div-add-mod', mod-lt, div-lt_iff_lt-mul, pow-suc, pow-zero, one-mul,
}
use go_http.Int.{ℤ, pos, negsuc}

unfoldable pub digit_char : ℕ → ℕ
digit_char d = if ltb d 10 then d + 48 else d + 87

unfoldable pub digit_value : ℕ → Option ℕ
digit_value c =
    if within b'0' b'9' c
    then some (c - 48)
    else if within b'a' b'z' c
    then some (c - 87)
    else if within b'A' b'Z' c
    then some (c - 55)
    else none

-- one digit put behind the number so far
unfoldable pub push_digit : ℕ → ℕ → ℕ → Option ℕ
unfolding digit_value
push_digit base acc c = elim (digit_value c) [
  | none ↦ none
  | some d ↦ if ltb d base then some (acc * base + d) else none
]

unfoldable pub parse_digits : ℕ → ℕ → Bytes → Option ℕ
unfolding push_digit
parse_digits base acc [] = some acc
parse_digits base acc (c ∷ cs) = elim (push_digit base acc c) [
  | none ↦ none
  | some n ↦ parse_digits base n cs
]

abbrev pub below : ℕ → Option ℕ → Option ℕ
below limit none = none
below limit (some n) = if ltb n limit then some n else none

-- `strconv.Btoui64(s, base)`
unfoldable pub btoui64 : Bytes → ℕ → Option ℕ
unfolding parse_digits
btoui64 [] base = none
btoui64 (c ∷ cs) base = below (2 ^ 64) (parse_digits base 0 (c ∷ cs))

abbrev pub positive : Option ℕ → Option ℤ
positive none = none
positive (some n) = if ltb n (2 ^ 63) then some (pos n) else none

abbrev pub negated : Option ℕ → Option ℤ
negated none = none
negated (some zero) = some (pos 0)
negated (some (suc n)) = if ltb n (2 ^ 63) then some (negsuc n) else none

-- `strconv.Atoi64`, and `strconv.Atoi` where `int` has 64 bits
unfoldable pub atoi64 : Bytes → Option ℤ
unfolding btoui64
atoi64 [] = none
atoi64 (c ∷ cs) =
    if c == b'-'
    then negated (btoui64 cs 10)
    else if c == b'+'
    then positive (btoui64 cs 10)
    else positive (btoui64 (c ∷ cs) 10)

unfoldable pub print_from : ℕ → ℕ → ℕ → Bytes → Bytes
print_from zero base n out = out
print_from (suc f) base n out =
    let rest = print_from f base (n / base) (digit_char (n % base) ∷ out) in
    if ltb n base then digit_char n ∷ out else rest

-- `strconv.Uitob64(n, base)`; `n + 1` rounds are enough
unfoldable pub uitob64 : ℕ → ℕ → Bytes
unfolding print_from digit_char
uitob64 n base = print_from (suc n) base n []

-- `strconv.Itoa64`
unfoldable pub itoa64 : ℤ → Bytes
unfolding uitob64
itoa64 (pos n) = uitob64 n 10
itoa64 (negsuc n) = b'-' ∷ uitob64 (suc n) 10
