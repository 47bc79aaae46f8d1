-- ===== src/Version/Printed.antt =====
-- `ParseHTTPVersion` (http/request.go) on versions as they are printed.
use go_http.Prelude.{
  ℕ, ◌+◌, ◌-◌, ◌*◌, ◌≤◌, true, false, [], ◌∷◌, ◌++◌, Bytes, codes, ◌<◌, ◌≢◌, ◌≡◌, refl, ap, sym,
  ◌∙◌, arith, str_eq, within, some, All, append-nil,
}
use go_http.Strconv.{uitob64, parse_digits, push_digit, digit_char, digit_value}
use go_http.Strconv.Laws.{uitob64-All, uitob64-ne, parse_digits-uitob64}
use go_http.Version.{digits_from, atoi, version_numbers, parse_http_version}

abbrev Digits : Bytes → Type 0
Digits s = All (λ c. within b'0' b'9' c ≡ true) s

abbrev Stops : Bytes → Type 0
Stops [] = Unit
Stops (c ∷ s) = within b'0' b'9' c ≡ false

uncons-digits :
    (acc n c : ℕ) (cs : Bytes)
    → within b'0' b'9' c ≡ true
    → parse_digits 10 acc (c ∷ cs) ≡ some n
    → parse_digits 10 (acc * 10 + (c - b'0')) cs ≡ some n
unfolding parse_digits push_digit digit_value
uncons-digits acc n c cs d e = ground arith

digits_from-append :
    (acc n : ℕ) (s rest : Bytes)
    → Digits s
    → Stops rest
    → parse_digits 10 acc s ≡ some n
    → n ≤ 1000000
    → (acc ≤ n) × (digits_from acc (s ++ rest) ≡ some (n, rest))
unfolding digits_from parse_digits
digits_from-append acc n [] [] d stop e h = ground arith
digits_from-append acc n [] (r ∷ rest) d stop e h = ground arith
digits_from-append acc n (c ∷ s) rest (d, ds) stop e h =
    let (low, step) =
      digits_from-append (acc * 10 + (c - b'0')) n s rest ds stop (uncons-digits acc n c s d e) h in
    ground arith

digit_char-digit : (d : ℕ) → d < 10 → within b'0' b'9' (digit_char d) ≡ true
unfolding digit_char
digit_char-digit d h = ground arith

atoi-printed :
    (n : ℕ) (rest : Bytes) → n ≤ 1000000 → Stops rest → atoi (uitob64 n 10 ++ rest) ≡ some (n, rest)
unfolding atoi
atoi-printed n rest h stop =
    go (uitob64 n 10)
      (uitob64-All 10 (omega arith) (λ c. within b'0' b'9' c ≡ true) digit_char-digit n)
      (uitob64-ne 10 (omega arith) (omega arith) n)
      (parse_digits-uitob64 10 (omega arith) (omega arith) n)
  where
    go :
        (s : Bytes)
        → Digits s
        → s ≢ []
        → parse_digits 10 0 s ≡ some n
        → atoi (s ++ rest) ≡ some (n, rest)
    go [] d ne e = absurd (ne refl)
    go (c ∷ s) d ne e =
        let (_, found) = digits_from-append 0 n (c ∷ s) rest d stop e h in ground arith

-- Every version whose numbers are at most a million is read back from its text: "HTTP/", the major
-- number, a point and the minor number.
pub parse_http_version-printed :
    (major minor : ℕ)
    → major ≤ 1000000
    → minor ≤ 1000000
    → parse_http_version (codes "HTTP/" ++ (uitob64 major 10 ++ (b'.' ∷ uitob64 minor 10)))
      ≡ some (major, minor)
unfolding parse_http_version str_eq
parse_http_version-printed major minor h k =
    let first = atoi-printed major (b'.' ∷ uitob64 minor 10) h refl in
    let second : atoi (uitob64 minor 10) ≡ some (minor, []) =
      ap atoi (sym (append-nil (uitob64 minor 10))) ∙ atoi-printed minor [] k tt in
    let both : version_numbers (uitob64 major 10 ++ (b'.' ∷ uitob64 minor 10))
        ≡ some (major, minor) =
      unfold version_numbers in rw (version_numbers, first, second) refl in
    ground (arith, both)
