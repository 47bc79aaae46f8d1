-- ===== src/Chunked/Digits.antt =====
-- The hexadecimal digits of a chunk's size.
use go_http.Prelude.{ℕ, ◌<◌, ◌≤◌, ◌^◌, false, ◌≡◌, arith, All, length}
use go_http.Strconv.{digit_char, uitob64}
use go_http.Strconv.Laws.{uitob64-All, uitob64-length}
use go_http.Chunked.{is_line_space}

hex_digit : (d : ℕ) → d < 16 → is_line_space (digit_char d) ≡ false
unfolding digit_char
hex_digit d h = ground arith

pub hex-All : (n : ℕ) → All (λ c. is_line_space c ≡ false) (uitob64 n 16)
hex-All n = uitob64-All 16 (omega arith) (λ c. is_line_space c ≡ false) hex_digit n

-- A 64-bit size has at most sixteen digits.
pub hex-length : (n : ℕ) → n < 2 ^ 64 → length (uitob64 n 16) ≤ 16
hex-length n h = uitob64-length 16 (omega arith) 15 n (omega arith)
