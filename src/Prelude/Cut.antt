-- ===== src/Prelude/Cut.antt =====
-- Laws of `split`, `trim_space` and `index_byte`.
use Prim.Native.Nat.{ℕ, suc}
use mathlib.Core.Path.{◌≡◌, refl, ◌∙◌, ap}
use mathlib.Core.Logic.{◌≢◌}
use mathlib.Core.Bool.{false}
use mathlib.Core.List.{
  List, [], ◌∷◌, ◌++◌, reverse, reverse-append, reverse-reverse, append_assoc, append-nil,
}
use mathlib.Core.Option.{some}
use native.Mathlib.Omega.{arith}
use go_http.Prelude.Lists.{length, All, take, drop}
use go_http.Prelude.Tests.{◌==◌}
use go_http.Prelude.Text.{
  Bytes, is_empty, index_byte, is_white, trim_left, trim_space, split_onto, split,
}

-- The byte does not occur.
abbrev pub Lacks : ℕ → Bytes → Type 0
Lacks b = All (λ c. (c == b) ≡ false)

split_onto-append :
    (b : ℕ) (part p rest : Bytes)
    → Lacks b p
    → split_onto b part (p ++ (b ∷ rest)) ≡ (part ++ p) ∷ split_onto b [] rest
unfolding split_onto
split_onto-append b part [] rest h = rw append-nil (ground arith)
split_onto-append b part (c ∷ p) rest h =
    rw h.0 (split_onto-append b (part ++ (c ∷ [])) p rest h.1 ∙ rw append_assoc)

split_onto-Lacks : (b : ℕ) (part p : Bytes) → Lacks b p → split_onto b part p ≡ (part ++ p) ∷ []
unfolding split_onto
split_onto-Lacks b part [] h = rw append-nil
split_onto-Lacks b part (c ∷ p) h =
    rw h.0 (split_onto-Lacks b (part ++ (c ∷ [])) p h.1 ∙ rw append_assoc)

-- A text with no separator is one part.
pub split-Lacks : (b : ℕ) (p : Bytes) → Lacks b p → split b p ≡ p ∷ []
unfolding split
split-Lacks b p h = split_onto-Lacks b [] p h

-- The first separator ends the first part.
pub split-append :
    (b : ℕ) (p rest : Bytes) → Lacks b p → split b (p ++ (b ∷ rest)) ≡ p ∷ split b rest
unfolding split
split-append b p rest h = split_onto-append b [] p rest h

pub index_byte-append :
    (b : ℕ) (p rest : Bytes) → Lacks b p → index_byte b (p ++ (b ∷ rest)) ≡ some (length p)
unfolding index_byte
index_byte-append b [] rest h = ground arith
index_byte-append b (c ∷ p) rest h = rw (h.0, index_byte-append b p rest h.1)

pub take-length-append {ℓ} : {A : Type ℓ} (xs ys : List A) → take (length xs) (xs ++ ys) ≡ xs
take-length-append [] ys = refl
take-length-append (x ∷ xs) ys = ap (◌∷◌ x) (take-length-append xs ys)

abbrev pub Visible : Bytes → Type 0
Visible = All (λ c. is_white c ≡ false)

-- The text begins, or ends, with a byte that is no white space.
abbrev pub BeginsVisible : Bytes → Type 0
BeginsVisible [] = ⊥
BeginsVisible (c ∷ cs) = is_white c ≡ false

abbrev pub EndsVisible : Bytes → Type 0
EndsVisible [] = ⊥
EndsVisible (c ∷ []) = is_white c ≡ false
EndsVisible (c ∷ d ∷ cs) = EndsVisible (d ∷ cs)

pub EndsVisible-append : (s t : Bytes) → EndsVisible t → EndsVisible (s ++ t)
EndsVisible-append [] t h = h
EndsVisible-append (c ∷ []) [] h = absurd h
EndsVisible-append (c ∷ []) (d ∷ t) h = h
EndsVisible-append (c ∷ d ∷ s) t h = EndsVisible-append (d ∷ s) t h

pub EndsVisible-of_Visible : (s : Bytes) → s ≢ [] → Visible s → EndsVisible s
EndsVisible-of_Visible [] ne h = absurd (ne refl)
EndsVisible-of_Visible (c ∷ []) ne h = h.0
EndsVisible-of_Visible (c ∷ d ∷ s) ne h = EndsVisible-of_Visible (d ∷ s) (λ e. cc) h.1

trim_left-visible : (s : Bytes) → BeginsVisible s → trim_left s ≡ s
unfolding trim_left
trim_left-visible [] h = absurd h
trim_left-visible (c ∷ cs) h = rw h

pub last_of :
    (s : Bytes) → EndsVisible s → (a : Bytes) × (d : ℕ) × (s ≡ a ++ (d ∷ [])) × (is_white d ≡ false)
last_of [] h = absurd h
last_of (c ∷ []) h = ([], c, refl, h)
last_of (c ∷ d ∷ cs) h =
    let (a, e, split_here, white) = last_of (d ∷ cs) h in (c ∷ a, e, ap (◌∷◌ c) split_here, white)

trim_left-reverse : (s : Bytes) → EndsVisible s → trim_left (reverse s) ≡ reverse s
trim_left-reverse s h =
    let (a, d, e, white) = last_of s h in
    rw (e, reverse-append a (d ∷ [])) (trim_left-visible (d ∷ reverse a) white)

-- `TrimSpace` leaves a text alone that has no white space at its ends.
pub trim_space-visible : (s : Bytes) → BeginsVisible s → EndsVisible s → trim_space s ≡ s
unfolding trim_space
trim_space-visible s h k = rw (trim_left-visible s h, trim_left-reverse s k) (reverse-reverse s)

-- A blank in front of it is cut.
pub trim_space-blank : (s : Bytes) → BeginsVisible s → EndsVisible s → trim_space (b' ' ∷ s) ≡ s
trim_space-blank s h k =
    let shift : trim_space (b' ' ∷ s) ≡ trim_space s = unfold trim_space trim_left in refl in
    shift ∙ trim_space-visible s h k

pub drop-suc-append {ℓ} :
    {A : Type ℓ} (xs : List A) (y : A) (ys : List A) → drop (suc (length xs)) (xs ++ (y ∷ ys)) ≡ ys
drop-suc-append [] y ys = refl
drop-suc-append (x ∷ xs) y ys = drop-suc-append xs y ys

pub is_empty-append_cons {ℓ} :
    {A : Type ℓ} (xs : List A) (y : A) (ys : List A) → is_empty (xs ++ (y ∷ ys)) ≡ false
is_empty-append_cons [] y ys = refl
is_empty-append_cons (x ∷ xs) y ys = refl
