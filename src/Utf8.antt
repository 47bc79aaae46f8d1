-- ===== src/Utf8.antt =====
-- Go's "utf8.DecodeRune" and "utf8.FullRune", which the loops over text in http/cookie.go and
-- http/fs.go run through. Malformed text decodes to U+FFFD, one byte at a time.
use go_http.Prelude.{
  ℕ, zero, suc, ◌+◌, ◌-◌, ◌*◌, ◌<◌, Bool, ◌&&◌, List, [], ◌∷◌, ◌≡◌, refl, arith, Bytes, All, ap,
  not, within, ltb, leb, length, drop, if◌then◌else◌,
}

-- `utf8.RuneError`
abbrev pub rune_error : ℕ
rune_error = 0xFFFD

abbrev invalid : ℕ × ℕ
invalid = (rune_error, 1)

abbrev is_tail : ℕ → Bool
is_tail c = within 0x80 0xBF c

decode_two : ℕ → Bytes → ℕ × ℕ
decode_two c0 (c1 ∷ _) =
    if within 0xC2 0xDF c0 && is_tail c1 then ((c0 - 0xC0) * 64 + (c1 - 0x80), 2) else invalid
decode_two c0 [] = invalid

decode_three : ℕ → Bytes → ℕ × ℕ
decode_three c0 (c1 ∷ c2 ∷ _) =
    let rune = (c0 - 0xE0) * 4096 + (c1 - 0x80) * 64 + (c2 - 0x80) in
    if within 0xE0 0xEF c0
      && is_tail c1
      && is_tail c2
      && leb 0x800 rune
      && not (within 0xD800 0xDFFF rune)
    then (rune, 3)
    else invalid
decode_three c0 _ = invalid

decode_four : ℕ → Bytes → ℕ × ℕ
decode_four c0 (c1 ∷ c2 ∷ c3 ∷ _) =
    let rune = (c0 - 0xF0) * 262144 + (c1 - 0x80) * 4096 + (c2 - 0x80) * 64 + (c3 - 0x80) in
    if within 0xF0 0xF7 c0 && is_tail c1 && is_tail c2 && is_tail c3 && within 0x10000 0x10FFFF rune
    then (rune, 4)
    else invalid
decode_four c0 _ = invalid

-- `utf8.DecodeRune`: the rune and its size
unfoldable pub decode_rune : Bytes → ℕ × ℕ
unfolding decode_two decode_three decode_four
decode_rune [] = (rune_error, 0)
decode_rune (c0 ∷ rest) =
    if ltb c0 0x80
    then (c0, 1)
    else if ltb c0 0xE0
    then decode_two c0 rest
    else if ltb c0 0xF0
    then decode_three c0 rest
    else decode_four c0 rest

-- The runes of `for _, c := range s`, on fuel; each takes a byte at least.
unfoldable pub runes_from : ℕ → Bytes → List ℕ
unfolding decode_rune
runes_from zero s = []
runes_from (suc f) [] = []
runes_from (suc f) (c ∷ cs) =
    let (rune, size) = decode_rune (c ∷ cs) in rune ∷ runes_from f (drop size (c ∷ cs))

unfoldable pub runes : Bytes → List ℕ
unfolding runes_from
runes s = runes_from (length s) s

decode_rune_ascii : (c : ℕ) (cs : Bytes) → c < 128 → decode_rune (c ∷ cs) ≡ (c, 1)
unfolding decode_rune
decode_rune_ascii c cs h = ground arith

-- The runes of an ASCII text are its bytes.
pub runes_ascii : (s : Bytes) → All (λ c. c < 128) s → runes s ≡ s
unfolding runes
runes_ascii [] h = refl
runes_ascii (c ∷ cs) h = rw (decode_rune_ascii c cs h.0) (ap (◌∷◌ c) (runes_ascii cs h.1))

decode_runs :
    runes (0xC5 ∷ 0x81 ∷ 0xE2 ∷ 0x82 ∷ 0xAC ∷ 0xFF ∷ []) ≡ 0x141 ∷ 0x20AC ∷ rune_error ∷ []
unfolding runes
decode_runs = refl
