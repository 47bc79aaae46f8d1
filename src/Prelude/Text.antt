-- ===== src/Prelude/Text.antt =====
-- Go's strings and byte slices as lists of byte values, and the functions of Go's package
-- "strings" that the program calls, on ASCII text.
use Prim.Native.Char.{code}
use Prim.Native.String.{String}
use Prim.Native.Nat.{ℕ, suc, ◌+◌, ◌-◌, ◌≤◌}
use mathlib.Core.Path.{◌≡◌, refl, ◌∙◌}
use mathlib.Core.Logic.{◌↔◌}
use mathlib.Core.Bool.{Bool, true, false, ◌&&◌, ◌||◌}
use mathlib.Core.List.{List, [], ◌∷◌, ◌++◌, map, reverse, reverse-cons}
use mathlib.Core.Option.{Option, none, some}
use mathlib.Core.Option
use native.Mathlib.Omega.{arith}
use go_http.Prelude.Lists.{length, All, drop}
use go_http.Prelude.Tests.{leb, ◌==◌, if◌then◌else◌}

abbrev pub Bytes : Type 0
Bytes = List ℕ

-- The bytes of a literal; the program's literals are ASCII.
abbrev pub codes : String → Bytes
codes String.[] = []
codes (String.◌∷◌ c s) = code c ∷ codes s

abbrev pub within : ℕ → ℕ → ℕ → Bool
within lo hi c = leb lo c && leb c hi

-- `s == t` on strings
unfoldable pub str_eq : Bytes → Bytes → Bool
str_eq [] [] = true
str_eq (x ∷ xs) (y ∷ ys) = x == y && str_eq xs ys
str_eq _ _ = false

pub str_eq_iff : (a b : Bytes) → (str_eq a b ≡ true) ↔ (a ≡ b)
unfolding str_eq
str_eq_iff (x ∷ a) (y ∷ b) = ground (arith, str_eq_iff a b)
str_eq_iff _ _ = ground arith

pub str_eq_refl : (a : Bytes) → str_eq a a ≡ true
str_eq_refl a = (str_eq_iff a a).1 refl

-- `s == ""`
abbrev pub is_empty {ℓ} : {A : Type ℓ} → List A → Bool
is_empty [] = true
is_empty (x ∷ xs) = false

-- one `case` of a switch that lists bytes
unfoldable pub one_of : ℕ → Bytes → Bool
one_of c [] = false
one_of c (x ∷ xs) = c == x || one_of c xs

-- the Boolean version of `All`, for a loop that returns false at the first bad byte
unfoldable pub all_bytes : (ℕ → Bool) → Bytes → Bool
all_bytes p [] = true
all_bytes p (c ∷ cs) = p c && all_bytes p cs

abbrev pub AllBytes : (ℕ → Bool) → Bytes → Type 0
AllBytes p = All (λ c. p c ≡ true)

pub all_bytes_iff : (p : ℕ → Bool) (s : Bytes) → (all_bytes p s ≡ true) ↔ AllBytes p s
unfolding all_bytes
all_bytes_iff p [] = (λ _. tt, λ _. refl)
all_bytes_iff p (c ∷ cs) = ground (arith, all_bytes_iff p cs)

-- `strings.Index(s, "c")` for one byte
unfoldable pub index_byte : ℕ → Bytes → Option ℕ
index_byte c [] = none
index_byte c (x ∷ xs) =
    let rest = Option.map suc (index_byte c xs) in if x == c then some 0 else rest

-- `strings.HasPrefix(s, p)`
unfoldable pub has_prefix : Bytes → Bytes → Bool
has_prefix s [] = true
has_prefix [] (y ∷ p) = false
has_prefix (x ∷ s) (y ∷ p) = x == y && has_prefix s p

pub has_prefix_iff : (s p : Bytes) → (has_prefix s p ≡ true) ↔ (p ++ drop (length p) s ≡ s)
unfolding has_prefix
has_prefix_iff s [] = (λ _. refl, λ _. refl)
has_prefix_iff [] (y ∷ p) = ground arith
has_prefix_iff (x ∷ s) (y ∷ p) = ground (arith, has_prefix_iff s p)

-- `strings.Contains(s, p)`
unfoldable pub contains : Bytes → Bytes → Bool
unfolding has_prefix
contains [] p = has_prefix [] p
contains (x ∷ s) p = has_prefix (x ∷ s) p || contains s p

-- the white space of `strings.TrimSpace`
unfoldable pub is_white : ℕ → Bool
is_white c = within 9 13 c || c == b' '

unfoldable pub trim_left : Bytes → Bytes
unfolding is_white
trim_left [] = []
trim_left (c ∷ cs) = let rest = trim_left cs in if is_white c then rest else c ∷ cs

-- `strings.TrimSpace`
unfoldable pub trim_space : Bytes → Bytes
unfolding trim_left
trim_space s = reverse (trim_left (reverse (trim_left s)))

unfoldable pub lower : ℕ → ℕ
lower c = if within b'A' b'Z' c then c + 32 else c

unfoldable pub upper : ℕ → ℕ
upper c = if within b'a' b'z' c then c - 32 else c

-- `strings.ToLower`
abbrev pub to_lower : Bytes → Bytes
to_lower = map lower

-- `strings.ToUpper`
abbrev pub to_upper : Bytes → Bytes
to_upper = map upper

-- `strings.Split(s, "c")`: the first part, and the others
unfoldable pub split_onto : ℕ → Bytes → Bytes → List Bytes
split_onto c part [] = part ∷ []
split_onto c part (x ∷ xs) =
    let cut = part ∷ split_onto c [] xs in
    let grow = split_onto c (part ++ x ∷ []) xs in if x == c then cut else grow

unfoldable pub split : ℕ → Bytes → List Bytes
unfolding split_onto
split c s = split_onto c [] s

-- `strings.Join(parts, sep)`
unfoldable pub join : Bytes → List Bytes → Bytes
join sep [] = []
join sep (p ∷ []) = p
join sep (p ∷ q ∷ ps) = p ++ (sep ++ join sep (q ∷ ps))

-- how often a byte occurs
unfoldable pub count : ℕ → Bytes → ℕ
count b [] = 0
count b (c ∷ cs) = (if c == b then 1 else 0) + count b cs

pub count-append : (b : ℕ) (s t : Bytes) → count b (s ++ t) ≡ count b s + count b t
unfolding count
count-append b [] t = omega arith
count-append b (c ∷ s) t = omega (arith, count-append b s t)

pub count-reverse : (b : ℕ) (s : Bytes) → count b (reverse s) ≡ count b s
unfolding count
count-reverse b [] = refl
count-reverse b (c ∷ s) =
    rw (reverse-cons c s) (count-append b (reverse s) (c ∷ []) ∙ omega (arith, count-reverse b s))

pub count-trim_left : (b : ℕ) (s : Bytes) → count b (trim_left s) ≤ count b s
unfolding count trim_left
count-trim_left b [] = omega arith
count-trim_left b (c ∷ s) = ground (arith, count-trim_left b s)

pub count-trim_space : (b : ℕ) (s : Bytes) → count b (trim_space s) ≤ count b s
unfolding trim_space
count-trim_space b s = omega (
  arith,
  count-reverse b (trim_left (reverse (trim_left s))),
  count-trim_left b (reverse (trim_left s)),
  count-reverse b (trim_left s),
  count-trim_left b s,
)
