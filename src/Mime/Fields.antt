-- ===== src/Mime/Fields.antt =====
-- One header line as `ReadMIMEHeader` reads it: the key, a colon, a blank, and a trimmed value.
use go_http.Prelude.{
  ℕ, suc, not, ◌&&◌, all_bytes, ◌≡◌, ◌≢◌, refl, sym, ap, ◌∙◌, inl, inr, Bool, true, false, [], ◌∷◌,
  ◌++◌, Option, some, none, Bytes, arith, is_white, last_of, Lacks, All, All-append, codes, ◌==◌,
  if◌then◌else◌, append_assoc, index_byte-append, length, take-length-append, drop-suc-append,
  one_of, is_empty,
}
use mathlib.Core.List.{reverse, reverse-append, reverse-reverse}
use go_http.Header.{canonical_header_key}
use go_http.Chunked.{crlf, slice, read_slice}
use go_http.Transfer.{ok}
use go_http.Mime.{
  strip_end, text_line, is_blank, skip_blanks, trim, continue_line, read_continued, parse_field,
}
use go_http.Mime.Trimmed.{IsTrimmed}

read_slice-line :
    (s w : Bytes) → Lacks b'\n' s → read_slice (s ++ (b'\r' ∷ b'\n' ∷ w)) ≡ slice (s ++ crlf) w
unfolding read_slice
read_slice-line [] w h = refl
read_slice-line (c ∷ s) w h = ground (arith, h.0, read_slice-line s w h.1)

strip_end-line : (s : Bytes) → strip_end (s ++ crlf) ≡ s
unfolding strip_end
strip_end-line [] = refl
strip_end-line (c ∷ []) = refl
strip_end-line (c ∷ d ∷ []) = refl
strip_end-line (c ∷ d ∷ e ∷ s) = ap (◌∷◌ c) (strip_end-line (d ∷ e ∷ s))

-- A line is read without its end.
pub text_line-line :
    (c : ℕ) (s w : Bytes)
    → Lacks b'\n' (c ∷ s)
    → text_line ((c ∷ s) ++ (crlf ++ w)) ≡ some (c ∷ s, w)
unfolding text_line
text_line-line c s w h = rw (read_slice-line (c ∷ s) w h, text_line) (rw (strip_end-line (c ∷ s)))

-- The bytes that a key may not have.
abbrev pub IsKeyByte : ℕ → Type 0
IsKeyByte c =
    (is_blank c ≡ false) × ((c == b':') ≡ false) × ((c == b' ') ≡ false) × ((c == b'\n') ≡ false)

-- a key that is not empty
abbrev pub IsKey : Bytes → Type 0
IsKey k = (k ≢ []) × All IsKeyByte k

skip_blanks-solid : (c : ℕ) (s : Bytes) → is_blank c ≡ false → skip_blanks (c ∷ s) ≡ c ∷ s
unfolding skip_blanks
skip_blanks-solid c s h = rw h

-- what is left of the value's part of the line
abbrev pub value_part : Bytes → Bytes
value_part [] = []
value_part (c ∷ u) = b' ' ∷ c ∷ u

trim_end :
    (a : Bytes) (d : ℕ)
    → is_blank d ≡ false
    → reverse (skip_blanks (reverse (a ++ (d ∷ [])))) ≡ a ++ (d ∷ [])
trim_end a d h =
    ap (λ t. reverse (skip_blanks t)) (reverse-append a (d ∷ []))
    ∙ ap reverse (skip_blanks-solid d (reverse a) h)
    ∙ ap reverse (sym (reverse-append a (d ∷ [])))
    ∙ reverse-reverse (a ++ (d ∷ []))

not_blank : (d : ℕ) → is_white d ≡ false → is_blank d ≡ false
unfolding is_white
not_blank d h = ground arith

trim_empty-value :
    (k : Bytes) → reverse (skip_blanks (reverse (k ++ codes ": "))) ≡ k ++ (b':' ∷ [])
unfolding skip_blanks
trim_empty-value k =
    ap (λ t. reverse (skip_blanks t)) (reverse-append k (codes ": "))
    ∙ ap reverse (sym (reverse-append k (b':' ∷ [])))
    ∙ reverse-reverse (k ++ (b':' ∷ []))

trim-line :
    (c : ℕ) (k u : Bytes)
    → is_blank c ≡ false
    → IsTrimmed u
    → trim ((c ∷ k) ++ (codes ": " ++ u)) ≡ (c ∷ k) ++ (b':' ∷ value_part u)
unfolding trim
trim-line c k u h (inl e) =
    ap (λ t. reverse (skip_blanks (reverse t))) (skip_blanks-solid c (k ++ (codes ": " ++ u)) h)
    ∙ ap (λ t. reverse (skip_blanks (reverse ((c ∷ k) ++ (codes ": " ++ t))))) e
    ∙ trim_empty-value (c ∷ k)
    ∙ ap (λ t. (c ∷ k) ++ (b':' ∷ value_part t)) (sym e)
trim-line c k [] h (inr (b, e)) = absurd b
trim-line c k (x ∷ u) h (inr (b, e)) =
    let (a, d, whole, solid) = last_of (x ∷ u) e in
    let split : (c ∷ k) ++ (codes ": " ++ (x ∷ u)) ≡ ((c ∷ k) ++ (codes ": " ++ a)) ++ (d ∷ []) =
      ap (λ t. (c ∷ k) ++ (codes ": " ++ t)) whole
      ∙ sym (append_assoc (c ∷ k) (codes ": " ++ a) (d ∷ [])) in
    ap (λ t. reverse (skip_blanks (reverse t)))
      (skip_blanks-solid c (k ++ (codes ": " ++ (x ∷ u))) h)
    ∙ ap (λ t. reverse (skip_blanks (reverse t))) split
    ∙ trim_end ((c ∷ k) ++ (codes ": " ++ a)) d (not_blank d solid)
    ∙ sym split

-- The next line is no continuation.
abbrev pub BeginsSolid : Bytes → Type 0
BeginsSolid [] = ⊥
BeginsSolid (c ∷ cs) = is_blank c ≡ false

continue_line-solid :
    (f : ℕ) (l wire : Bytes) → BeginsSolid wire → continue_line (suc f) l wire ≡ (l, wire)
unfolding continue_line
continue_line-solid f l [] h = absurd h
continue_line-solid f l (c ∷ cs) h = rw (h, continue_line)

read_continued-step :
    (c : ℕ) (l wire rest : Bytes)
    → text_line wire ≡ some (c ∷ l, rest)
    → read_continued wire ≡ some (continue_line (suc (length rest)) (trim (c ∷ l)) rest)
unfolding read_continued
read_continued-step c l wire rest e =
    ap
      (λ (o : Option (Bytes × Bytes)). elim o [
        | none ↦ none
        | some (l, rest) ↦
            some
              (if is_empty l then ([], rest) else continue_line (suc (length rest)) (trim l) rest)
      ])
      e

key-Lacks : (k : Bytes) → All IsKeyByte k → Lacks b'\n' k × Lacks b':' k
key-Lacks [] h = (tt, tt)
key-Lacks (c ∷ k) h = let (l, m) = key-Lacks k h.1 in ((h.0.3, l), (h.0.1, m))

-- A line of a key and a trimmed value, before a line that does not continue it.
pub read_continued-field :
    (c : ℕ) (k u w : Bytes)
    → IsKey (c ∷ k)
    → IsTrimmed u
    → Lacks b'\n' u
    → BeginsSolid w
    → read_continued ((c ∷ k) ++ (codes ": " ++ (u ++ (crlf ++ w))))
      ≡ some ((c ∷ k) ++ (b':' ∷ value_part u), w)
read_continued-field c k u w key trimmed lacks solid =
    let l = k ++ (codes ": " ++ u) in
    let clean : Lacks b'\n' (c ∷ l) =
      All-append _ (c ∷ k) (codes ": " ++ u) (key-Lacks (c ∷ k) key.1).0 (refl, (refl, lacks)) in
    ap read_continued (sym (append_assoc (c ∷ k) (codes ": " ++ u) (crlf ++ w)))
    ∙ read_continued-step c l ((c ∷ l) ++ (crlf ++ w)) w (text_line-line c l w clean)
    ∙ ap some (continue_line-solid (length w) (trim (c ∷ l)) w solid)
    ∙ ap (λ t. some (t, w)) (trim-line c k u key.1.0.0 trimmed)

one_of-key : (k : Bytes) → All IsKeyByte k → one_of b' ' k ≡ false
unfolding one_of
one_of-key [] h = refl
one_of-key (c ∷ k) h = ground (arith, one_of-key k h.1)

skip_blanks-value : (u : Bytes) → IsTrimmed u → skip_blanks (value_part u) ≡ u
unfolding skip_blanks
skip_blanks-value [] h = refl
skip_blanks-value (c ∷ u) (inl e) = absurd (cc)
skip_blanks-value (c ∷ u) (inr (b, e)) = skip_blanks-solid c u (not_blank c b)

-- The field that the line stands for.
pub parse_field-field :
    (k u : Bytes)
    → IsKey k
    → IsTrimmed u
    → canonical_header_key k ≡ k
    → parse_field (k ++ (b':' ∷ value_part u)) ≡ ok (k, u)
unfolding parse_field
parse_field-field k u key trimmed canonical =
    let found = index_byte-append b':' k (value_part u) (key-Lacks k key.1).1 in
    rw (found, parse_field)
      (rw
        (
          take-length-append k (b':' ∷ value_part u),
          one_of-key k key.1,
          canonical,
          drop-suc-append k b':' (value_part u),
        )
        (ap (λ v. ok (k, v)) (skip_blanks-value u trimmed)))

abbrev pub key_byte : ℕ → Bool
key_byte c = (not (is_blank c) && not (c == b':')) && (not (c == b' ') && not (c == b'\n'))

key_bytes : (k : Bytes) → all_bytes key_byte k ≡ true → All IsKeyByte k
unfolding all_bytes
key_bytes [] h = tt
key_bytes (c ∷ k) h = (ground arith, key_bytes k (ground arith))

-- A key that is checked by running.
pub IsKey-of : (k : Bytes) → is_empty k ≡ false → all_bytes key_byte k ≡ true → IsKey k
IsKey-of [] e h = cc
IsKey-of (c ∷ k) e h = (λ x. cc, key_bytes (c ∷ k) h)
