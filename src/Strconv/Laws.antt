-- ===== src/Strconv/Laws.antt =====
-- Printing a number and parsing it, with the functions of package "strconv".
use go_http.Prelude.{
  ℕ, zero, suc, ◌+◌, ◌*◌, ◌/◌, ◌%◌, ◌^◌, ◌≤◌, ◌<◌, false, [], ◌∷◌, ◌≡◌, ◌≢◌, refl, ◌∙◌, ap, sym,
  subst, Option, none, some, arith, Bytes, All, length, ltb, ◌==◌, inl, inr, Bool-cases, ltb→lt,
  lt→ltb,
}
use native.Mathlib.Nat.{
  le_trans, div-lt_self, div-add-mod', mod-lt, div-lt_iff_lt-mul, pow-suc, pow-zero, one-mul,
}
use go_http.Int.{pos, negsuc}
use go_http.Strconv.{
  digit_char, push_digit, parse_digits, btoui64, negated, positive, atoi64, print_from, uitob64,
  itoa64,
}

push_digit-digit_char :
    (base acc d : ℕ)
    → d < base
    → base ≤ 36
    → push_digit base acc (digit_char d) ≡ some (acc * base + d)
unfolding push_digit digit_char
push_digit-digit_char base acc d h k = ground arith

parse_digits-push :
    (base acc c n : ℕ) (cs : Bytes)
    → push_digit base acc c ≡ some n
    → parse_digits base acc (c ∷ cs) ≡ parse_digits base n cs
unfolding parse_digits
parse_digits-push base acc c n cs e = rw (e, parse_digits)

module _ (base : ℕ) (two : 2 ≤ base) (most : base ≤ 36) where
  parse_digits-print_from :
      (f n : ℕ) (out : Bytes)
      → n < f
      → parse_digits base 0 (print_from f base n out) ≡ parse_digits base n out
  unfolding print_from
  parse_digits-print_from zero n out h = absurd (omega arith)
  parse_digits-print_from (suc f) n out h = elim (Bool-cases (ltb n base)) [
    | inl small ↦ rw small (
        parse_digits-push base 0 (digit_char n) (0 * base + n) out
          (push_digit-digit_char base 0 n (ltb→lt n base small) most)
        ∙ ap (λ k. parse_digits base k out) (omega arith))
    | inr big ↦ rw big (
        parse_digits-print_from f (n / base) (digit_char (n % base) ∷ out)
          (le_trans (div-lt_self (grind arith) two) (omega arith))
        ∙ parse_digits-push base (n / base) (digit_char (n % base)) (n / base * base + n % base) out
            (push_digit-digit_char base (n / base) (n % base) (mod-lt n (omega arith)) most)
        ∙ ap (λ k. parse_digits base k out) (div-add-mod' n base))
  ]

  print_from_head :
      (f n : ℕ) (out : Bytes)
      → (d : ℕ) × (rest : Bytes) × (print_from (suc f) base n out ≡ digit_char d ∷ rest)
        × (d < base)
  unfolding print_from
  print_from_head zero n out = elim (Bool-cases (ltb n base)) [
    | inl small ↦ (n, out, rw small, ltb→lt n base small)
    | inr big ↦ (n % base, out, rw big, mod-lt n (omega arith))
  ]
  print_from_head (suc f) n out = elim (Bool-cases (ltb n base)) [
    | inl small ↦ (n, out, rw small, ltb→lt n base small)
    | inr big ↦
        let (d, rest, e, h) = print_from_head f (n / base) (digit_char (n % base) ∷ out) in
        (d, rest, rw big e, h)
  ]

  pub parse_digits-uitob64 : (n : ℕ) → parse_digits base 0 (uitob64 n base) ≡ some n
  unfolding uitob64
  parse_digits-uitob64 n =
      parse_digits-print_from (suc n) n [] (omega arith) ∙ unfold parse_digits in refl

  -- A number below 2^64 printed in a base is read back.
  pub btoui64-uitob64 : (n : ℕ) → n < 2 ^ 64 → btoui64 (uitob64 n base) base ≡ some n
  unfolding uitob64
  btoui64-uitob64 n h =
      let (d, rest, e, _) = print_from_head n n [] in
      let value : parse_digits base 0 (digit_char d ∷ rest) ≡ some n =
        ap (parse_digits base 0) (sym e)
        ∙ parse_digits-print_from (suc n) n [] (omega arith)
        ∙ unfold parse_digits in refl in
      rw e (unfold btoui64 in rw value (rw (lt→ltb n (2 ^ 64) h)))

module _ (base : ℕ) (two : 2 ≤ base) where
  print_from-All {κ} :
      (P : ℕ → Type κ)
      → ((d : ℕ) → d < base → P (digit_char d))
      → (f n : ℕ) (out : Bytes) → All P out
      → All P (print_from f base n out)
  unfolding print_from
  print_from-All P each zero n out h = h
  print_from-All P each (suc f) n out h = elim (Bool-cases (ltb n base)) [
    | inl small ↦ rw small (each n (ltb→lt n base small), h)
    | inr big ↦ rw big (
        print_from-All P each f (n / base) (digit_char (n % base) ∷ out)
          (each (n % base) (mod-lt n (omega arith)), h))
  ]

  print_from-length :
      (k f n : ℕ) (out : Bytes)
      → n < base ^ suc k
      → length (print_from f base n out) ≤ suc k + length out
  unfolding print_from
  print_from-length k zero n out h = omega arith
  print_from-length zero (suc f) n out h =
      let small : n < base = rw (pow-suc, pow-zero, one-mul) at h in
      rw (lt→ltb n base small) (omega arith)
  print_from-length (suc k) (suc f) n out h = elim (Bool-cases (ltb n base)) [
    | inl small ↦ rw small (omega arith)
    | inr big ↦ rw big (
        le_trans
          (print_from-length k f (n / base) (digit_char (n % base) ∷ out)
            ((div-lt_iff_lt-mul (omega arith)).1 (subst (λ b. n < b) (pow-suc base (suc k)) h)))
          (omega arith))
  ]

  pub uitob64-All {κ} :
      (P : ℕ → Type κ) → ((d : ℕ) → d < base → P (digit_char d)) → (n : ℕ) → All P (uitob64 n base)
  unfolding uitob64
  uitob64-All P each n = print_from-All P each (suc n) n [] tt

  pub uitob64-length : (k n : ℕ) → n < base ^ suc k → length (uitob64 n base) ≤ suc k
  unfolding uitob64
  uitob64-length k n h = omega (arith, print_from-length k (suc n) n [] h)

  pub uitob64-ne : base ≤ 36 → (n : ℕ) → uitob64 n base ≢ []
  unfolding uitob64
  uitob64-ne most n e = let (d, rest, shown, _) = print_from_head base two most n n [] in cc

digit_char_unsigned : (d : ℕ) → ((digit_char d == b'-') ≡ false) × ((digit_char d == b'+') ≡ false)
unfolding digit_char
digit_char_unsigned d = ground arith

-- the digits of a number, as `Atoi64` sees them
itoa_digits :
    (n : ℕ)
    → n < 2 ^ 64
    → (d : ℕ) × (rest : Bytes) × (uitob64 n 10 ≡ digit_char d ∷ rest)
      × (btoui64 (digit_char d ∷ rest) 10 ≡ some n)
itoa_digits n h =
    let ten : 2 ≤ 10 = omega arith in
    let most : 10 ≤ 36 = omega arith in
    let (d, rest, e, _) = print_from_head 10 ten most n n [] in
    let shown : uitob64 n 10 ≡ digit_char d ∷ rest = unfold uitob64 in e in
    (d, rest, shown, ap (λ s. btoui64 s 10) (sym shown) ∙ btoui64-uitob64 10 ten most n h)

atoi64_digits :
    (c : ℕ) (cs : Bytes) (n : ℕ)
    → ((c == b'-') ≡ false) × ((c == b'+') ≡ false)
    → btoui64 (c ∷ cs) 10 ≡ some n
    → n < 2 ^ 63
    → atoi64 (c ∷ cs) ≡ some (pos n)
unfolding atoi64
atoi64_digits c cs n (minus, plus) e h = rw (minus, plus, e) (rw (lt→ltb n (2 ^ 63) h))

atoi64_minus :
    (cs : Bytes) (n : ℕ)
    → btoui64 cs 10 ≡ some (suc n)
    → n < 2 ^ 63
    → atoi64 (b'-' ∷ cs) ≡ some (negsuc n)
unfolding atoi64
atoi64_minus cs n e h = rw e (rw (lt→ltb n (2 ^ 63) h))

-- `Atoi64` reads back every int64 that `Itoa64` prints: -2^63 up to 2^63 - 1.
pub atoi64-itoa64 :
    (n : ℕ)
    → n < 2 ^ 63
    → (atoi64 (itoa64 (pos n)) ≡ some (pos n)) × (atoi64 (itoa64 (negsuc n)) ≡ some (negsuc n))
atoi64-itoa64 n h =
    let (d, rest, shown, value) = itoa_digits n (omega arith) in
    let (_, _, shown', value') = itoa_digits (suc n) (omega arith) in
    let plus : itoa64 (pos n) ≡ digit_char d ∷ rest = unfold itoa64 in shown in
    let minus : itoa64 (negsuc n) ≡ b'-' ∷ uitob64 (suc n) 10 = unfold itoa64 in refl in
    (
      rw plus (atoi64_digits (digit_char d) rest n (digit_char_unsigned d) value h),
      rw (minus, shown') (atoi64_minus _ n value' h),
    )

negated_low : (o : Option ℕ) (k : ℕ) → negated o ≡ some (negsuc k) → k < 2 ^ 63
negated_low none k e = absurd (ground arith)
negated_low (some zero) k e = absurd (ground arith)
negated_low (some (suc n)) k e = ground arith

positive_low : (o : Option ℕ) (k : ℕ) → positive o ≡ some (negsuc k) → k < 2 ^ 63
positive_low none k e = absurd (ground arith)
positive_low (some n) k e = absurd (ground arith)

-- No number that `Atoi64` returns is below -2^63.
pub atoi64_low : (s : Bytes) (k : ℕ) → atoi64 s ≡ some (negsuc k) → k < 2 ^ 63
unfolding atoi64
atoi64_low [] k e = absurd (ground arith)
atoi64_low (c ∷ cs) k e = elim (Bool-cases (c == b'-')) [
  | inl b ↦ negated_low (btoui64 cs 10) k (rw (b, atoi64) at e)
  | inr b ↦ elim (Bool-cases (c == b'+')) [
    | inl d ↦ positive_low (btoui64 cs 10) k (rw (b, d, atoi64) at e)
    | inr d ↦ positive_low (btoui64 (c ∷ cs) 10) k (rw (b, d, atoi64) at e)
  ]
]
