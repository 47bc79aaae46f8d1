-- ===== src/Mime.antt =====
-- The reader of package "net/textproto" that http/request.go and http/response.go read lines and
-- header fields with: `ReadLine`, `ReadContinuedLine` and `ReadMIMEHeader` on the bytes to come.
pub mod Trimmed
pub mod Fields
pub mod Headers
pub mod Values
pub mod Filled
mod Tests
use go_http.Prelude.{
  ℕ, zero, suc, ◌+◌, Bool, true, false, not, ◌&&◌, ◌||◌, List, [], ◌∷◌, ◌++◌, Option, none, some,
  Bytes, codes, is_empty, length, take, drop, index_byte, one_of, ◌==◌, if◌then◌else◌,
}
use mathlib.Core.List.{reverse}
use go_http.Errors.{Error, eof, text_error}
use go_http.Header.{Header, assign, index, canonical_header_key}
use go_http.Chunked.{Slice, slice, unfinished, read_slice}
use go_http.Transfer.{Outcome, ok, err, panics, ◌>>=◌}

-- a line without its end, `\n` or `\r\n`
unfoldable pub strip_end : Bytes → Bytes
strip_end [] = []
strip_end (c ∷ []) = if c == b'\n' then [] else c ∷ []
strip_end (c ∷ d ∷ []) = if d == b'\n' then (if c == b'\r' then [] else c ∷ []) else c ∷ d ∷ []
strip_end (c ∷ d ∷ e ∷ r) = c ∷ strip_end (d ∷ e ∷ r)

-- `ReadLine`: the line and the bytes behind it, or nothing at the end of the input
unfoldable pub text_line : Bytes → Option (Bytes × Bytes)
unfolding strip_end read_slice
text_line [] = none
text_line (c ∷ cs) = elim (read_slice (c ∷ cs)) [
  | unfinished ↦ some (c ∷ cs, [])
  | slice p rest ↦ some (strip_end p, rest)
]

abbrev pub is_blank : ℕ → Bool
is_blank c = c == b' ' || c == b'\t'

unfoldable pub skip_blanks : Bytes → Bytes
skip_blanks [] = []
skip_blanks (c ∷ cs) = let rest = skip_blanks cs in if is_blank c then rest else c ∷ cs

-- `trim`
unfoldable pub trim : Bytes → Bytes
unfolding skip_blanks
trim s = reverse (skip_blanks (reverse (skip_blanks s)))

-- the loop over continuation lines, on fuel; each is at least a byte long
unfoldable pub continue_line : ℕ → Bytes → Bytes → Bytes × Bytes
unfolding trim text_line skip_blanks
continue_line zero l wire = (l, wire)
continue_line (suc f) l [] = (l, [])
continue_line (suc f) l (c ∷ cs) = elim (is_blank c) [
  | false ↦ (l, c ∷ cs)
  | true ↦ elim (text_line (skip_blanks cs)) [
    | none ↦ (l ++ (b' ' ∷ []), [])
    | some (m, rest) ↦ continue_line f (l ++ (b' ' ∷ trim m)) rest
  ]
]

-- `ReadContinuedLine`
unfoldable pub read_continued : Bytes → Option (Bytes × Bytes)
unfolding text_line continue_line trim
read_continued wire = elim (text_line wire) [
  | none ↦ none
  | some (l, rest) ↦
      some (if is_empty l then ([], rest) else continue_line (suc (length rest)) (trim l) rest)
]

abbrev malformed : Bytes → Error
malformed kv = text_error (codes "malformed MIME header line: " ++ kv)

-- the key and the value of a line
unfoldable pub parse_field : Bytes → Outcome (Bytes × Bytes)
unfolding skip_blanks one_of index_byte
parse_field kv = elim (index_byte b':' kv) [
  | none ↦ err (malformed kv)
  | some i ↦
      if one_of b' ' (take i kv)
      then err (malformed kv)
      else ok (canonical_header_key (take i kv), skip_blanks (drop (suc i) kv))
]

-- `m[key] = append(m[key], value)`
unfoldable pub append_value : Header → Bytes → Bytes → Header
append_value m k v = assign k (index m k ++ (v ∷ [])) m

-- the loop of `ReadMIMEHeader`, on fuel
unfoldable pub read_fields : ℕ → Header → Bytes → Outcome (Header × Bytes)
unfolding read_continued parse_field append_value
read_fields zero m wire = ok (m, wire)
read_fields (suc f) m wire = elim (read_continued wire) [
  | none ↦ err eof
  | some (kv, rest) ↦ elim (is_empty kv) [
    | true ↦ ok (m, rest)
    | false ↦ elim (parse_field kv) [
      | panics ↦ panics
      | err e ↦ err e
      | ok (k, v) ↦ read_fields f (append_value m k v) rest
    ]
  ]
]

-- `ReadMIMEHeader`; a line is at least a byte long
unfoldable pub read_mime_header : Bytes → Outcome (Header × Bytes)
unfolding read_fields
read_mime_header wire = read_fields (suc (length wire)) [] wire
