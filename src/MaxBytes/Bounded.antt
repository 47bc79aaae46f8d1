-- ===== src/MaxBytes/Bounded.antt =====
-- The limit of the maxBytesReader (http/request.go).
use go_http.Prelude.{
  if_intro, if◌then◌else◌, ◌==◌, ℕ, zero, suc, ◌+◌, ◌-◌, ◌≤◌, true, List, [], ◌∷◌, some, Bytes, ◌≡◌,
  refl, arith, length, length-append, length-take, min,
}
use go_http.Int.{pos}
use go_http.Chunked
use go_http.Chunked.{ChunkedReader, read_data}
use go_http.Transfer.Body
use go_http.Transfer.Body.{
  Body, BodyReader, chunked_reader, limited_reader, whole_reader, read_from,
}
use go_http.MaxBytes.{MaxBytesReader, refuse, read, read_each, body_too_large}

read_data-length : (cr : ChunkedReader) (size give : ℕ) → length (read_data cr size give).1 ≤ size
unfolding read_data
read_data-length cr size give = omega (arith, length-take (min (min size cr.n) give) cr.wire)

chunked-length : (cr : ChunkedReader) (size give : ℕ) → length (Chunked.read cr size give).1 ≤ size
unfolding Chunked.read
chunked-length cr size give =
    let ready = if cr.n == 0 then Chunked.begin_chunk cr else cr in
    let Fits : ChunkedReader × Bytes → Type 0 = λ r. length r.1 ≤ size in
    let failed : Fits (cr, []) = omega arith in
    let unready : Fits (ready, []) = omega arith in
    let behind : Fits
        (if Chunked.has_failed ready then (ready, []) else read_data ready size give) =
      if_intro Fits (Chunked.has_failed ready) unready (read_data-length ready size give) in
    if_intro Fits (Chunked.has_failed cr) failed behind

read_from-length : (r : BodyReader) (size give : ℕ) → length (read_from r size give).1 ≤ size
unfolding read_from
read_from-length (chunked_reader cr) size give = chunked-length cr size give
read_from-length (limited_reader zero wire) size give = omega arith
read_from-length (limited_reader (suc n) wire) size give =
    omega (arith, length-take (min (min size (suc n)) give) wire)
read_from-length (whole_reader wire) size give = omega (arith, length-take (min size give) wire)

body_read-length : (b : Body) (size give : ℕ) → length (Body.read b size give).1 ≤ size
unfolding Body.read
body_read-length b size give = ground (arith, read_from-length b.reader size give)

-- One read takes what it returns off the limit.
read-limit :
    (l : MaxBytesReader) (k size give : ℕ)
    → l.n ≡ pos k
    → (m : ℕ) × ((read l size give).0.n ≡ pos m) × (m + length (read l size give).1 ≡ k)
unfolding read refuse
read-limit l zero size give e = (0, ground arith, ground arith)
read-limit l (suc k) size give e =
    let short = body_read-length l.r (min size (suc k)) give in
    (
      suc k - length (Body.read l.r (min size (suc k)) give).1,
      rw (read, e) refl,
      rw (read, e) (omega (arith, short)),
    )

-- However often a reader is read, and whatever is asked for and comes in, the bytes that it returns
-- are together no more than its limit, and the limit that is left is what they leave of it.
pub read_each-limit :
    (reads : List (ℕ × ℕ)) (l : MaxBytesReader) (k : ℕ)
    → l.n ≡ pos k
    → (m : ℕ) × ((read_each reads l).0.n ≡ pos m) × (m + length (read_each reads l).1 ≡ k)
unfolding read_each
read_each-limit [] l k e = (k, e, omega arith)
read_each-limit ((size, give) ∷ reads) l k e =
    let (j, now, some_read) = read-limit l k size give e in
    let (m, left, rest) = read_each-limit reads (read l size give).0 j now in
    (
      m,
      left,
      omega (
        arith,
        some_read,
        rest,
        length-append (read l size give).1 (read_each reads (read l size give).0).1,
      ),
    )

-- At the limit a read returns no bytes and the error "request body too large", and does not touch the
-- underlying reader; the response is told at most once.
pub read-at_limit :
    (l : MaxBytesReader) (size give : ℕ)
    → l.n ≡ pos 0
    → let (l', got, e) = read l size give in
      (got ≡ [])
      × (e ≡ some body_too_large)
      × (l'.r ≡ l.r)
      × (l'.stopped ≡ true)
      × (l'.n ≡ pos 0)
      × (refuse l' ≡ l')
unfolding read refuse
read-at_limit l size give e = ground arith
