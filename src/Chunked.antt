-- ===== src/Chunked.antt =====
-- http/chunked.go and the chunked reader and line reader of http/request.go.
-- A `bufio.Reader` is the list of the bytes that are still to come, and then the end of the input.
-- The writer takes all that is written to it.
pub mod Digits
pub mod Lines
pub mod RoundTrip
pub mod Truncated
mod Tests
use go_http.Prelude.{
  ℕ, zero, suc, ◌+◌, ◌-◌, min, Bool, true, false, not, ◌&&◌, ◌||◌, List, [], ◌∷◌, ◌++◌, Option,
  none, some, Bytes, codes, length, take, drop, is_empty, leb, ltb, ◌==◌, if◌then◌else◌,
}
use go_http.Strconv.{uitob64, btoui64}
use go_http.Errors.{Error, eof, unexpected_eof, line_too_long, text_error, syntax}

abbrev pub crlf : Bytes
crlf = b'\r' ∷ b'\n' ∷ []

-- `chunkedWriter.Write`: what one call puts on the wire
unfoldable pub chunk : Bytes → Bytes
chunk [] = []
chunk (c ∷ cs) = uitob64 (length (c ∷ cs)) 16 ++ (crlf ++ ((c ∷ cs) ++ crlf))

-- `chunkedWriter.Close`
abbrev pub close_chunks : Bytes
close_chunks = b'0' ∷ crlf

-- One `Write` for each piece of the data.
unfoldable pub chunks : List Bytes → Bytes
unfolding chunk
chunks [] = []
chunks (p ∷ ps) = chunk p ++ chunks ps

-- `maxLineLength`
abbrev pub max_line_length : ℕ
max_line_length = 4096

-- What `ReadSlice('\n')` finds: a line with its line feed and the bytes behind it, or no line feed.
pub data Slice : Type 0 where
  slice : Bytes → Bytes → Slice
  unfinished : Slice

abbrev grow : ℕ → Slice → Slice
grow c (slice p rest) = slice (c ∷ p) rest
grow c unfinished = unfinished

unfoldable pub read_slice : Bytes → Slice
read_slice [] = unfinished
read_slice (c ∷ cs) =
    let rest = grow c (read_slice cs) in if c == b'\n' then slice (c ∷ []) cs else rest

-- the white space that `readLineBytes` chops off
abbrev is_line_space : ℕ → Bool
is_line_space c = c == b' ' || c == b'\r' || c == b'\t' || c == b'\n'

-- the loop that chops off trailing white space
unfoldable pub chop : Bytes → Bytes
chop [] = []
chop (c ∷ cs) = let rest = chop cs in if is_empty rest && is_line_space c then [] else c ∷ rest

pub data Line : Type 0 where
  line : Bytes → Bytes → Line
  line_error : Error → Line

-- `readLine`: the line, and the bytes behind it. A buffer that is full with no line feed is an
-- overlong line too.
unfoldable pub read_line : Bytes → Line
unfolding read_slice chop
read_line wire = elim (read_slice wire) [
  | unfinished ↦
      line_error (if leb max_line_length (length wire) then line_too_long else unexpected_eof)
  | slice p rest ↦
      if leb max_line_length (length p) then line_error line_too_long else line (chop p) rest
]

-- `chunkedReader`
pub record ChunkedReader : Type 0 where
  pub wire : Bytes
  -- unread bytes in chunk
  pub n : ℕ
  pub err : Option Error

abbrev pub fail : ChunkedReader → Error → ChunkedReader
fail cr e = record cr { err = some e }

-- The loop over the trailer's lines, on fuel: up to an empty line, at which the error is `os.EOF`.
unfoldable pub skip_trailer : ℕ → ChunkedReader → ChunkedReader
skip_trailer zero cr = cr
skip_trailer (suc f) cr = elim (read_line cr.wire) [
  | line_error e ↦ fail cr e
  | line s rest ↦
      let after : ChunkedReader = record cr { wire = rest } in
      let more = skip_trailer f after in if is_empty s then fail after eof else more
]

-- `beginChunk`, with the chunk's size parsed
unfoldable pub begin_sized : ChunkedReader → Bytes → Option ℕ → ChunkedReader
unfolding skip_trailer
begin_sized cr rest none = record cr { wire = rest; n = 0; err = some syntax }
begin_sized cr rest (some zero) =
    skip_trailer (suc (length rest)) (record cr { wire = rest; n = 0; err = none })
begin_sized cr rest (some (suc k)) = record cr { wire = rest; n = suc k; err = none }

-- `beginChunk`; a line is at least a byte long, so the loop's fuel is enough
unfoldable pub begin_chunk : ChunkedReader → ChunkedReader
unfolding begin_sized
begin_chunk cr = elim (read_line cr.wire) [
  | line_error e ↦ fail cr e
  | line s rest ↦ begin_sized cr rest (btoui64 s 16)
]

-- the two bytes behind a chunk
unfoldable pub end_chunk : ChunkedReader → ChunkedReader
end_chunk cr = elim cr.wire [
  | [] ↦ fail cr eof
  | a ∷ more ↦ elim more [
    | [] ↦ record cr { wire = []; err = some unexpected_eof }
    | b ∷ rest ↦
        if not (a == b'\r') || not (b == b'\n')
        then record cr { wire = rest; err = some (text_error (codes "malformed chunked encoding")) }
        else record cr { wire = rest }
  ]
]

-- the part of `Read` behind the test `cr.n == 0`: `size` bytes are asked for, and the underlying
-- reader hands over at most `give`
unfoldable pub read_data : ChunkedReader → ℕ → ℕ → ChunkedReader × Bytes
unfolding end_chunk
read_data cr size give =
    let want = min (min size cr.n) give in
    let got = take want cr.wire in
    let after : ChunkedReader = record cr {
      wire = drop want cr.wire;
      n = cr.n - length got;
      err = if is_empty cr.wire then some eof else none;
    } in
    let ended = end_chunk after in
    (if after.n == 0 && not (is_empty cr.wire) then ended else after, got)

abbrev pub has_failed : ChunkedReader → Bool
has_failed cr = elim cr.err [ none ↦ false | some e ↦ true ]

-- `chunkedReader.Read`
unfoldable pub read : ChunkedReader → ℕ → ℕ → ChunkedReader × Bytes
unfolding read_data begin_chunk
read cr size give =
    let ready : ChunkedReader = if cr.n == 0 then begin_chunk cr else cr in
    let data' : ChunkedReader × Bytes =
      if has_failed ready then (ready, []) else read_data ready size give in
    if has_failed cr then (cr, []) else data'

-- Reads until an error, on fuel: the data, and the reader then. The numbers say what each read asks
-- for, and what the underlying reader hands over, both less one.
unfoldable pub read_all : ℕ → (ℕ → ℕ × ℕ) → ChunkedReader → ChunkedReader × Bytes
unfolding read
read_all zero sizes cr = (cr, [])
read_all (suc f) sizes cr =
    let (cr', got) = read cr (suc (sizes f).0) (suc (sizes f).1) in
    let (last, rest) = read_all f sizes cr' in
    if has_failed cr' then (cr', got) else (last, got ++ rest)
