-- ===== src/Mime/Headers.antt =====
-- A header as `WriteSubset` (http/header.go) writes it, read by `ReadMIMEHeader`: the lines.
use go_http.Prelude.{
  ℕ, zero, suc, ◌<◌, ◌≡◌, refl, sym, ap, ◌∙◌, inl, false, List, [], ◌∷◌, ◌++◌, some, Bytes, arith,
  Lacks, All, All-append, codes, append_assoc, length, trim_space, count-trim_space, is_empty,
}
use go_http.Header.{
  Header, newline_to_space, header_line, header_lines, write_entries, canonical_header_key,
}
use go_http.Header.Wire.{count-newline_to_space}
use go_http.Chunked.{crlf, read_slice}
use go_http.Transfer.{ok}
use go_http.Mime.{text_line, strip_end, read_continued, parse_field, read_fields, append_value}
use go_http.Mime.Trimmed.{IsTrimmed, trim_space-IsTrimmed, Lacks-count}
use go_http.Mime.Fields.{IsKey, value_part, BeginsSolid, read_continued-field, parse_field-field}

-- the value as it goes on the wire
abbrev pub clean : Bytes → Bytes
clean v = trim_space (newline_to_space v)

abbrev pub FieldLine : Type 0
FieldLine = Bytes × Bytes

abbrev pub IsLine : FieldLine → Type 0
IsLine l = IsKey l.0 × (canonical_header_key l.0 ≡ l.0) × IsTrimmed l.1 × Lacks b'\n' l.1

abbrev pub lines_text : List FieldLine → Bytes
lines_text [] = []
lines_text (l ∷ ls) = (l.0 ++ (codes ": " ++ (l.1 ++ crlf))) ++ lines_text ls

unfoldable pub append_lines : List FieldLine → Header → Header
append_lines [] m = m
append_lines (l ∷ ls) m = append_lines ls (append_value m l.0 l.1)

begins :
    (ls : List FieldLine) (w : Bytes) → All IsLine ls → BeginsSolid (lines_text ls ++ (crlf ++ w))
begins [] w h = refl
begins (([], u) ∷ ls) w h = absurd (h.0.0.0 refl)
begins (((c ∷ k), u) ∷ ls) w h = h.0.0.1.0.0

read_fields_step :
    (f : ℕ) (m : Header) (wire kv rest k v : Bytes)
    → read_continued wire ≡ some (kv, rest)
    → is_empty kv ≡ false
    → parse_field kv ≡ ok (k, v)
    → read_fields (suc f) m wire ≡ read_fields f (append_value m k v) rest
unfolding read_fields
read_fields_step f m wire kv rest k v e ne p = rw (e, read_fields) (rw ne (rw (p, read_fields)))

read_fields_end : (f : ℕ) (m : Header) (w : Bytes) → read_fields (suc f) m (crlf ++ w) ≡ ok (m, w)
unfolding read_fields read_continued text_line read_slice strip_end
read_fields_end f m w = refl

-- Every line is read, up to the empty one.
pub read_fields-lines :
    (ls : List FieldLine) (f : ℕ) (m : Header) (w : Bytes)
    → All IsLine ls
    → length ls < f
    → read_fields f m (lines_text ls ++ (crlf ++ w)) ≡ ok (append_lines ls m, w)
unfolding append_lines
read_fields-lines ls zero m w h le = absurd (omega arith)
read_fields-lines [] (suc f) m w h le = read_fields_end f m w
read_fields-lines (([], u) ∷ ls) (suc f) m w h le = absurd (h.0.0.0 refl)
read_fields-lines (((c ∷ k), u) ∷ ls) (suc f) m w h le =
    let rest = lines_text ls ++ (crlf ++ w) in
    let shape : lines_text (((c ∷ k), u) ∷ ls) ++ (crlf ++ w)
        ≡ (c ∷ k) ++ (codes ": " ++ (u ++ (crlf ++ rest))) =
      simp append_assoc in
    ap (read_fields (suc f) m) shape
    ∙ read_fields_step f m _ ((c ∷ k) ++ (b':' ∷ value_part u)) rest (c ∷ k) u
        (read_continued-field c k u rest h.0.0 h.0.2 h.0.3 (begins ls w h.1)) refl
        (parse_field-field (c ∷ k) u h.0.0 h.0.2 h.0.1)
    ∙ read_fields-lines ls f (append_value m (c ∷ k) u) w h.1 (omega arith)

-- The lines of a header.
abbrev pub value_lines : Bytes → List Bytes → List FieldLine
value_lines k [] = []
value_lines k (v ∷ vs) = (k, clean v) ∷ value_lines k vs

abbrev pub lines_of : Header → List FieldLine
lines_of [] = []
lines_of ((k, vs) ∷ h) = value_lines k vs ++ lines_of h

pub lines_text-append :
    (ls ms : List FieldLine) → lines_text (ls ++ ms) ≡ lines_text ls ++ lines_text ms
lines_text-append [] ms = refl
lines_text-append (l ∷ ls) ms =
    ap (λ t. (l.0 ++ (codes ": " ++ (l.1 ++ crlf))) ++ t) (lines_text-append ls ms)
    ∙ sym (append_assoc (l.0 ++ (codes ": " ++ (l.1 ++ crlf))) (lines_text ls) (lines_text ms))

header_lines-text :
    (k : Bytes) (vs : List Bytes) → header_lines k vs ≡ lines_text (value_lines k vs)
unfolding header_lines header_line
header_lines-text k [] = refl
header_lines-text k (v ∷ vs) = ap (λ t. header_line k v ++ t) (header_lines-text k vs)

pub write_entries-text : (h : Header) → write_entries h ≡ lines_text (lines_of h)
unfolding write_entries
write_entries-text [] = refl
write_entries-text ((k, vs) ∷ h) =
    rw (header_lines-text k vs, write_entries-text h)
      (sym (lines_text-append (value_lines k vs) (lines_of h)))

clean-Lacks : (v : Bytes) → Lacks b'\n' (clean v)
clean-Lacks v = Lacks-count b'\n' (clean v) (
    omega (
      arith,
      count-trim_space b'\n' (newline_to_space v),
      count-newline_to_space b'\n' v (inl refl),
    ))

abbrev pub IsField : Bytes × List Bytes → Type 0
IsField e = IsKey e.0 × (canonical_header_key e.0 ≡ e.0)

value_lines-IsLine : (k : Bytes) (vs : List Bytes) → IsField (k, vs) → All IsLine (value_lines k vs)
value_lines-IsLine k [] h = tt
value_lines-IsLine k (v ∷ vs) h = (
  (h.0, h.1, trim_space-IsTrimmed (newline_to_space v), clean-Lacks v),
  value_lines-IsLine k vs h,
)

pub lines_of-IsLine : (h : Header) → All IsField h → All IsLine (lines_of h)
lines_of-IsLine [] f = tt
lines_of-IsLine ((k, vs) ∷ h) f =
    All-append _ (value_lines k vs) (lines_of h) (value_lines-IsLine k vs f.0)
      (lines_of-IsLine h f.1)
