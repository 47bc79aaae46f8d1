-- ===== src/Transfer/Closing.antt =====
-- `body.Close` (http/transfer.go) and the bytes that it leaves on the connection.
use go_http.Prelude.{
  ◌^◌, inl, inr, Option-cases, ℕ, zero, suc, ◌+◌, ◌-◌, true, false, List, [], ◌∷◌, ◌++◌, Option,
  none, some, Bytes, ◌≡◌, refl, ap, sym, ◌∙◌, arith, length, take, drop, min, All, flatten,
  if◌then◌else◌, length-take, length-drop, drop-drop, ◌<◌, ◌≤◌,
}
use go_http.Errors.{Error, eof}
use go_http.Chunked
use go_http.Chunked.{ChunkedReader, chunks, close_chunks, crlf, read_all}
use go_http.Chunked.RoundTrip.{read_all-chunked}
use go_http.Transfer.Body.{
  Body, BodyReader, chunked_reader, limited_reader, wire_of, body_read_after_close, read_from, read,
  discard, close, is_eof,
}

-- A second `Close` changes nothing and returns no error, and a `Read` behind a `Close` gets
-- `ErrBodyReadAfterClose`, for every body.
pub close_twice :
    (f : ℕ) (sizes : ℕ → ℕ) (b : Body) (g size give : ℕ)
    → let after = (close f sizes b).0 in
      (close g sizes after ≡ (after, none))
      × (read after size give ≡ (after, [], some body_read_after_close))
unfolding close read
close_twice f sizes b g size give = ground arith

limited-step :
    (n : ℕ) (wire : Bytes) (give : ℕ)
    → suc n ≤ length wire
    → (k : ℕ) × (k ≤ n)
      × ((read_from (limited_reader (suc n) wire) 32768 (suc give)).0
          ≡ limited_reader (n - k) (drop (suc k) wire))
      × ((read_from (limited_reader (suc n) wire) 32768 (suc give)).2 ≡ none)
unfolding read_from
limited-step n [] give h = absurd (omega arith)
limited-step n (c ∷ cs) give h =
    let want = min (min 32768 (suc n)) (suc give) in
    let taken : length (take want (c ∷ cs)) ≡ want = length-take want (c ∷ cs) ∙ omega arith in
    let one_less : suc (want - 1) ≡ want = omega arith in
    let left : suc n - want ≡ n - (want - 1) = omega arith in
    (want - 1, omega arith, rw (taken, one_less, left) refl, refl)

discard-limited :
    (f n : ℕ) (sizes : ℕ → ℕ) (wire : Bytes)
    → n ≤ length wire
    → n < f
    → discard f sizes (limited_reader n wire) ≡ (limited_reader 0 (drop n wire), none)
unfolding discard
discard-limited zero n sizes wire h lt = absurd (omega arith)
discard-limited (suc f) zero sizes wire h lt = unfold read_from in refl
discard-limited (suc f) (suc n) sizes wire h lt =
    let (k, low, e, going) = limited-step n wire (sizes f) h in
    let room : n - k ≤ length (drop (suc k) wire) = omega (arith, length-drop (suc k) wire) in
    let rest = discard-limited f (n - k) sizes (drop (suc k) wire) room (omega arith) in
    let all_of : suc k + (n - k) ≡ suc n = omega arith in
    let behind : drop (n - k) (drop (suc k) wire) ≡ drop (suc n) wire =
      drop-drop (suc k) (n - k) wire ∙ ap (λ m. drop m wire) all_of in
    rw (discard, going, e, rest, behind) refl

-- `Close` of an open body of `n` bytes that are all on the connection, which stays open and whose
-- limit is not hit, reads just these bytes, whatever comes in for each read, and leaves what
-- follows them. A read for each byte, and one more, are enough.
pub close-limited :
    (f n : ℕ) (sizes : ℕ → ℕ) (wire : Bytes) (b : Body)
    → b.reader ≡ limited_reader n wire
    → (b.closed ≡ false) × (b.closing ≡ false) × (b.request_body_limit_hit ≡ false)
    → n ≤ length wire
    → n < f
    → ((close f sizes b).1 ≡ none)
      × ((close f sizes b).0.closed ≡ true)
      × (wire_of (close f sizes b).0.reader ≡ drop n wire)
unfolding close
close-limited f n sizes wire b r (open', keep, room) h lt =
    rw (close, r, open', keep, room, discard-limited f n sizes wire h lt) (ground arith)

module _ (f : ℕ) (sizes : ℕ → ℕ) (cr : ChunkedReader) where
  abbrev now : ChunkedReader
  now = (Chunked.read cr 32768 (suc (sizes f))).0

  abbrev got : Bytes
  got = (Chunked.read cr 32768 (suc (sizes f))).1

  abbrev ends_read_all : Option Error → ChunkedReader
  ends_read_all o =
      let (last, rest) = read_all f (λ i. (32767, sizes i)) now in
      let r : ChunkedReader × Bytes =
        if (elim o [ none ↦ false | some x ↦ true ]) then (now, got) else (last, got ++ rest) in
      r.0

  abbrev ends_discard : Option Error → BodyReader × Option Error
  ends_discard o = elim o [
    | none ↦ discard f sizes (chunked_reader now)
    | some x ↦ (chunked_reader now, if is_eof x then none else some x)
  ]

  read_all_step : (read_all (suc f) (λ i. (32767, sizes i)) cr).0 ≡ ends_read_all now.err
  unfolding read_all
  read_all_step = refl

  discard_step : discard (suc f) sizes (chunked_reader cr) ≡ ends_discard now.err
  unfolding discard
  discard_step = refl

discard-chunked :
    (f : ℕ) (sizes : ℕ → ℕ) (cr : ChunkedReader)
    → (read_all f (λ i. (32767, sizes i)) cr).0.err ≡ some eof
    → discard f sizes (chunked_reader cr)
      ≡ (chunked_reader (read_all f (λ i. (32767, sizes i)) cr).0, none)
discard-chunked zero sizes cr e = unfold discard read_all in refl
discard-chunked (suc f) sizes cr e =
    let step = read_all_step f sizes cr in
    elim (Option-cases (now f sizes cr).err) [
      | inl p ↦
          let same = step ∙ ap (ends_read_all f sizes cr) p in
          discard_step f sizes cr
          ∙ ap (ends_discard f sizes cr) p
          ∙ discard-chunked f sizes (now f sizes cr) (rw same at e)
          ∙ ap (λ r. (chunked_reader r, none)) (sym same)
      | inr (x, p) ↦
          let same = step ∙ ap (ends_read_all f sizes cr) p in
          discard_step f sizes cr
          ∙ ap (ends_discard f sizes cr) (rw same at e)
          ∙ ap (λ r. (chunked_reader r, none)) (sym same)
    ]

-- `Close` of a chunked body in pieces of fewer than 2^64 bytes, which is open and whose limit is
-- not hit, reads it to its end with the trailer, whatever comes in for each read, and leaves what
-- follows the body on the connection.
pub close-chunked :
    (ps : List Bytes) (w : Bytes) (sizes : ℕ → ℕ) (b : Body)
    → All (λ p. length p < 2 ^ 64) ps
    → b.reader
      ≡ chunked_reader
          (record { wire = chunks ps ++ (close_chunks ++ (crlf ++ w)); n = 0; err = none })
    → (b.closed ≡ false) × (b.trailing ≡ true) × (b.request_body_limit_hit ≡ false)
    → ((close (suc (length (flatten ps))) sizes b).1 ≡ none)
      × ((close (suc (length (flatten ps))) sizes b).0.closed ≡ true)
      × (wire_of (close (suc (length (flatten ps))) sizes b).0.reader ≡ w)
unfolding close
close-chunked ps w sizes b small r (open', trailing, room) =
    let f = suc (length (flatten ps)) in
    let cr : ChunkedReader = record {
      wire = chunks ps ++ (close_chunks ++ (crlf ++ w));
      n = 0;
      err = none;
    } in
    let all_read = read_all-chunked ps w (λ i. (32767, sizes i)) small in
    let done : discard f sizes (chunked_reader cr)
        ≡ (chunked_reader (record { wire = w; n = 0; err = some eof }), none) =
      discard-chunked f sizes cr (ap (λ p. p.0.err) all_read)
      ∙ ap (λ p. (chunked_reader p.0, none)) all_read in
    rw (close, r, open', trailing, room, done) (refl, refl, refl)
