-- ===== src/Transfer/Body.antt =====
-- The `body` of http/transfer.go: what a handler or a client reads a message's body from.
use go_http.Prelude.{
  ℕ, zero, suc, ◌-◌, Bool, true, false, not, ◌&&◌, [], Option, none, some, Bytes, codes, is_empty,
  length, take, drop, if◌then◌else◌, min,
}
use go_http.Errors.{Error, eof, text_error}
use go_http.Chunked.{ChunkedReader}
use go_http.Chunked

-- `io.Reader`: `NewChunkedReader(r)`, `io.LimitReader(r, n)` or `r`, with the bytes left on the wire
pub data BodyReader : Type 0 where
  chunked_reader : ChunkedReader → BodyReader
  limited_reader : ℕ → Bytes → BodyReader
  whole_reader : Bytes → BodyReader

-- `body`; `trailing` says that `hdr` is not nil, and the last field is that of the response `res`,
-- false where there is none
pub record Body : Type 0 where
  pub reader : BodyReader
  pub trailing : Bool
  pub closing : Bool
  pub closed : Bool
  pub request_body_limit_hit : Bool

-- the bytes that have not been read from the connection
abbrev pub wire_of : BodyReader → Bytes
wire_of (chunked_reader cr) = cr.wire
wire_of (limited_reader n wire) = wire
wire_of (whole_reader wire) = wire

-- `ErrBodyReadAfterClose`
abbrev pub body_read_after_close : Error
body_read_after_close = text_error (codes "http: invalid Read on closed request Body")

-- a read from the connection, of which `give` bytes have come in
abbrev take_wire : ℕ → Bytes → Bytes × Option Error
take_wire want wire = (take want wire, if is_empty wire then some eof else none)

-- `b.Reader.Read(p)`, with `size` for `len(p)`
unfoldable pub read_from : BodyReader → ℕ → ℕ → BodyReader × Bytes × Option Error
read_from (chunked_reader cr) size give =
    let (cr', got) = Chunked.read cr size give in (chunked_reader cr', got, cr'.err)
read_from (limited_reader zero wire) size give = (limited_reader 0 wire, [], some eof)
read_from (limited_reader (suc n) wire) size give =
    let (got, e) = take_wire (min (min size (suc n)) give) wire in
    (limited_reader (suc n - length got) (drop (length got) wire), got, e)
read_from (whole_reader wire) size give =
    let (got, e) = take_wire (min size give) wire in (whole_reader (drop (length got) wire), got, e)

-- `body.Read`
unfoldable pub read : Body → ℕ → ℕ → Body × Bytes × Option Error
unfolding read_from
read b size give =
    let (reader', got, e) = read_from b.reader size give in
    if b.closed
    then (b, [], some body_read_after_close)
    else (record b { reader = reader' }, got, e)

abbrev pub is_eof : Error → Bool
is_eof eof = true
is_eof _ = false

-- `io.Copy(ioutil.Discard, b)`, on fuel; the numbers, less one, are what comes in for each read
unfoldable pub discard : ℕ → (ℕ → ℕ) → BodyReader → BodyReader × Option Error
unfolding read_from
discard zero sizes r = (r, none)
discard (suc f) sizes r =
    let (r', got, e) = read_from r 32768 (suc (sizes f)) in
    let rest = discard f sizes r' in
    elim e [ none ↦ rest | some x ↦ (r', if is_eof x then none else some x) ]

-- `body.Close`
unfoldable pub close : ℕ → (ℕ → ℕ) → Body → Body × Option Error
unfolding discard
close fuel sizes b =
    let (reader', e) = discard fuel sizes b.reader in
    let shut : Body = record b { closed = true } in
    if b.closed
    then (b, none)
    else if not b.trailing && b.closing
    then (shut, none)
    else if b.request_body_limit_hit
    then (shut, none)
    else (record shut { reader = reader' }, e)
