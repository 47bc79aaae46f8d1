-- ===== src/Mime/Values.antt =====
-- A header as `WriteSubset` (http/header.go) writes it, read by `ReadMIMEHeader`: the values.
use go_http.Prelude.{
  suc, ◌<◌, ◌≡◌, refl, sym, ap, ◌∙◌, Bool, true, false, List, [], ◌∷◌, ◌++◌, none, Bytes, arith,
  All, codes, append_assoc, append-nil, length, length-append, str_eq, str_eq_iff, if◌then◌else◌,
  if_intro, map,
}
use mathlib.Core.List.{map-append}
use go_http.Header.{
  Header, lookup, index, str_lt, insert_entry, sort_entries, is_excluded, included, write_subset,
}
use go_http.Header.Maps.{lookup-assign}
use go_http.Chunked.{crlf}
use go_http.Transfer.{ok}
use go_http.Mime.{append_value, read_mime_header}
use go_http.Mime.Headers.{
  FieldLine, append_lines, clean, value_lines, lines_of, lines_text, IsField, IsLine,
  lines_of-IsLine, read_fields-lines, write_entries-text,
}

-- The values of a key among lines, and in a header that may have an entry twice.
abbrev pub line_values : Bytes → List FieldLine → List Bytes
line_values j [] = []
line_values j (l ∷ ls) = if str_eq l.0 j then l.1 ∷ line_values j ls else line_values j ls

abbrev pub all_values : Bytes → Header → List Bytes
all_values j [] = []
all_values j ((k, vs) ∷ h) = if str_eq k j then vs ++ all_values j h else all_values j h

index-append_value :
    (m : Header) (k v j : Bytes)
    → index (append_value m k v) j ≡ (if str_eq k j then index m j ++ (v ∷ []) else index m j)
unfolding append_value
index-append_value m k v j =
    ground (arith, str_eq_iff k j, lookup-assign k j (index m k ++ (v ∷ [])) m)

index-append_lines :
    (ls : List FieldLine) (m : Header) (j : Bytes)
    → index (append_lines ls m) j ≡ index m j ++ line_values j ls
unfolding append_lines
index-append_lines [] m j = sym (append-nil (index m j))
index-append_lines (l ∷ ls) m j =
    index-append_lines ls (append_value m l.0 l.1) j
    ∙ ap (λ t. t ++ line_values j ls) (index-append_value m l.0 l.1 j)
    ∙ ground (arith, append_assoc (index m j) (l.1 ∷ []) (line_values j ls))

line_values-value_lines :
    (j k : Bytes) (vs : List Bytes) (ls : List FieldLine)
    → line_values j (value_lines k vs ++ ls)
      ≡ (if str_eq k j then map clean vs ++ line_values j ls else line_values j ls)
line_values-value_lines j k [] ls = ground arith
line_values-value_lines j k (v ∷ vs) ls = ground (arith, line_values-value_lines j k vs ls)

line_values-lines_of :
    (j : Bytes) (h : Header) → line_values j (lines_of h) ≡ map clean (all_values j h)
line_values-lines_of j [] = refl
line_values-lines_of j ((k, vs) ∷ h) =
    line_values-value_lines j k vs (lines_of h)
    ∙ ground (arith, line_values-lines_of j h, map-append clean vs (all_values j h))

str_lt_irrefl : (s : Bytes) → str_lt s s ≡ false
unfolding str_lt
str_lt_irrefl [] = refl
str_lt_irrefl (c ∷ s) = ground (arith, str_lt_irrefl s)

all_values-insert_entry :
    (j : Bytes) (e : Bytes × List Bytes) (h : Header)
    → all_values j (insert_entry e h) ≡ all_values j (e ∷ h)
unfolding insert_entry
all_values-insert_entry j e [] = refl
all_values-insert_entry j e (f ∷ h) =
    ground
      (arith, all_values-insert_entry j e h, str_eq_iff f.0 j, str_eq_iff e.0 j, str_lt_irrefl j)

all_values-sort_entries : (j : Bytes) (h : Header) → all_values j (sort_entries h) ≡ all_values j h
unfolding sort_entries
all_values-sort_entries j [] = refl
all_values-sort_entries j (e ∷ h) =
    all_values-insert_entry j e (sort_entries h)
    ∙ ap (λ t. if str_eq e.0 j then e.1 ++ t else t) (all_values-sort_entries j h)

all_values-included :
    (j : Bytes) (exclude : List Bytes) (h : Header)
    → all_values j (included exclude h) ≡ (if is_excluded exclude j then [] else all_values j h)
unfolding included
all_values-included j exclude [] = ground arith
all_values-included j exclude ((k, vs) ∷ h) =
    ground (arith, all_values-included j exclude h, str_eq_iff k j)

-- Each key has one entry, as in a Go map.
abbrev pub Distinct : Header → Type 0
Distinct [] = Unit
Distinct ((k, vs) ∷ h) = (lookup k h ≡ none) × Distinct h

all_values-none : (j : Bytes) (h : Header) → lookup j h ≡ none → all_values j h ≡ []
unfolding lookup
all_values-none j [] e = refl
all_values-none j ((k, vs) ∷ h) e = ground (arith, all_values-none j h)

all_values-index : (j : Bytes) (h : Header) → Distinct h → all_values j h ≡ index h j
unfolding lookup
all_values-index j [] d = refl
all_values-index j ((k, vs) ∷ h) d =
    ground (arith, all_values-index j h, all_values-none k h, str_eq_iff k j, append-nil vs)

insert_entry-IsField :
    (e : Bytes × List Bytes) (h : Header)
    → IsField e
    → All IsField h
    → All IsField (insert_entry e h)
unfolding insert_entry
insert_entry-IsField e [] f g = (f, tt)
insert_entry-IsField e (x ∷ h) f g =
    if_intro (All IsField) (str_lt x.0 e.0) (g.0, insert_entry-IsField e h f g.1) (f, g)

sort_entries-IsField : (h : Header) → All IsField h → All IsField (sort_entries h)
unfolding sort_entries
sort_entries-IsField [] f = tt
sort_entries-IsField (e ∷ h) f =
    insert_entry-IsField e (sort_entries h) f.0 (sort_entries-IsField h f.1)

included-IsField :
    (exclude : List Bytes) (h : Header) → All IsField h → All IsField (included exclude h)
unfolding included
included-IsField exclude [] f = tt
included-IsField exclude ((k, vs) ∷ h) f =
    if_intro (All IsField) (is_excluded exclude k) (included-IsField exclude h f.1)
      (f.0, included-IsField exclude h f.1)

map_if :
    (b : Bool) (vs : List Bytes)
    → map clean (if b then [] else vs) ≡ (if b then [] else map clean vs)
map_if true vs = refl
map_if false vs = refl

lines-length : (ls : List FieldLine) (w : Bytes) → length ls < suc (length (lines_text ls ++ w))
lines-length [] w = omega arith
lines-length (l ∷ ls) w =
    let a = l.0 ++ (codes ": " ++ (l.1 ++ crlf)) in
    omega (
      arith,
      lines-length ls w,
      length-append {0} l.0 (codes ": " ++ (l.1 ++ crlf)),
      length-append {0} a (lines_text ls),
      length-append {0} (a ++ lines_text ls) w,
      length-append {0} (lines_text ls) w,
    )

-- The lines and the empty line are read to their end.
pub read_mime_header-lines :
    (ls : List FieldLine) (w : Bytes)
    → All IsLine ls
    → read_mime_header (lines_text ls ++ (crlf ++ w)) ≡ ok (append_lines ls [], w)
unfolding read_mime_header
read_mime_header-lines ls w lines =
    read_fields-lines ls (suc (length (lines_text ls ++ (crlf ++ w)))) [] w lines
      (lines-length ls (crlf ++ w))

-- What stands under a key of a header that is read from its lines.
pub index-lines :
    (ls : List FieldLine) (j : Bytes) → index (append_lines ls []) j ≡ line_values j ls
unfolding lookup
index-lines ls j = index-append_lines ls [] j

-- The lines that `WriteSubset` writes.
abbrev pub subset_lines : Header → List Bytes → List FieldLine
subset_lines h exclude = lines_of (sort_entries (included exclude h))

pub write_subset-text :
    (h : Header) (exclude : List Bytes)
    → write_subset h exclude ≡ lines_text (subset_lines h exclude)
unfolding write_subset
write_subset-text h exclude = write_entries-text (sort_entries (included exclude h))

pub subset_lines-IsLine :
    (h : Header) (exclude : List Bytes) → All IsField h → All IsLine (subset_lines h exclude)
subset_lines-IsLine h exclude fields =
    lines_of-IsLine (sort_entries (included exclude h))
      (sort_entries-IsField (included exclude h) (included-IsField exclude h fields))

pub line_values-subset_lines :
    (h : Header) (exclude : List Bytes) (j : Bytes)
    → Distinct h
    → line_values j (subset_lines h exclude)
      ≡ (if is_excluded exclude j then [] else map clean (index h j))
line_values-subset_lines h exclude j distinct =
    line_values-lines_of j (sort_entries (included exclude h))
    ∙ ap (map clean)
        (all_values-sort_entries j (included exclude h) ∙ all_values-included j exclude h)
    ∙ map_if (is_excluded exclude j) (all_values j h)
    ∙ ap (λ t. if is_excluded exclude j then [] else map clean t) (all_values-index j h distinct)

pub line_values-append :
    (j : Bytes) (ls ms : List FieldLine)
    → line_values j (ls ++ ms) ≡ line_values j ls ++ line_values j ms
line_values-append j [] ms = refl
line_values-append j (l ∷ ls) ms = ground (arith, line_values-append j ls ms)

-- A header is written and read back: if each key stands for one entry, is not empty, is in canonical
-- form, and has no white space, colon or line feed, then what `Header.WriteSubset` writes, with the
-- empty line behind it, is read to its end, and the header that is read has under each key the values
-- of the written one, with line breaks turned to blanks and white space cut at the ends; and none
-- under an excluded key.
pub read_mime_header-write_subset :
    (h : Header) (exclude : List Bytes) (w : Bytes)
    → All IsField h
    → Distinct h
    → (g : Header) × (read_mime_header (write_subset h exclude ++ (crlf ++ w)) ≡ ok (g, w))
      × ((j : Bytes) → index g j ≡ (if is_excluded exclude j then [] else map clean (index h j)))
read_mime_header-write_subset h exclude w fields distinct =
    let ls = subset_lines h exclude in
    (
      append_lines ls [],
      ap (λ t. read_mime_header (t ++ (crlf ++ w))) (write_subset-text h exclude)
          ∙ read_mime_header-lines ls w (subset_lines-IsLine h exclude fields),
      λ j. index-lines ls j ∙ line_values-subset_lines h exclude j distinct,
    )
