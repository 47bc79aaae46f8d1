-- ===== src/Chunked/Truncated.antt =====
-- What the chunked reader (http/request.go) reports when the input ends inside a chunk.
use go_http.Prelude.{
  ℕ, zero, suc, ◌-◌, ◌≤◌, ◌<◌, min, false, [], ◌∷◌, ◌++◌, ◌≡◌, refl, ap, ◌∙◌, none, some, arith,
  Bytes, length, length-take, length-drop, take, drop, take-append-drop, ◌==◌,
}
use native.Mathlib.Nat.{sub-zero}
use go_http.Errors.{eof}
use go_http.Chunked.{ChunkedReader, read_data, read, read_all}

-- `d` is all that is left of the input, and the chunk should have `m` bytes more
abbrev pub short : Bytes → ℕ → ChunkedReader
short d m = record { wire = d; n = m; err = none }

nonzero : (m : ℕ) → 0 < m → (m == 0) ≡ false
nonzero m h = ground arith

take-nil : (k : ℕ) → take {A = ℕ} k [] ≡ []
take-nil zero = refl
take-nil (suc k) = refl

drop-nil : (k : ℕ) → drop {A = ℕ} k [] ≡ []
drop-nil zero = refl
drop-nil (suc k) = refl

read-short_end :
    (m size give : ℕ)
    → 0 < m
    → read (short [] m) size give ≡ (record { wire = []; n = m; err = some eof }, [])
unfolding read read_data
read-short_end m size give h =
    let k = min (min size m) give in
    rw (nonzero m h, read_data, take-nil k, drop-nil k, sub-zero, nonzero m h)

read-short :
    (c : ℕ) (cs : Bytes) (m size give k : ℕ)
    → length (c ∷ cs) < m
    → min (min (suc size) m) (suc give) ≡ k
    → (read (short (c ∷ cs) m) (suc size) (suc give)
        ≡ (short (drop k (c ∷ cs)) (m - length (take k (c ∷ cs))), take k (c ∷ cs)))
      × (1 ≤ k)
      × (length (drop k (c ∷ cs)) < m - length (take k (c ∷ cs)))
unfolding read read_data
read-short c cs m size give k h e =
    let got = length (take k (c ∷ cs)) in
    let left : length (drop k (c ∷ cs)) < m - got =
      omega (arith, length-take {0} k (c ∷ cs), length-drop {0} k (c ∷ cs)) in
    let m_pos : 0 < m = omega arith in
    let left_pos : 0 < m - got = omega arith in
    (rw (nonzero m m_pos, read_data, e, nonzero (m - got) left_pos), omega arith, left)

-- If the input ends inside a chunk, the reader returns the bytes that came and then `os.EOF`, the
-- same error as behind the last chunk of a complete body. More reads than bytes are enough.
pub read_all-short :
    (f : ℕ) (d : Bytes) (m : ℕ) (sizes : ℕ → ℕ × ℕ)
    → length d < f
    → length d < m
    → ((read_all f sizes (short d m)).0.err ≡ some eof) × ((read_all f sizes (short d m)).1 ≡ d)
unfolding read_all
read_all-short zero d m sizes h lt = absurd (omega arith)
read_all-short (suc f) [] m sizes h lt = rw (read-short_end m _ _ (omega arith)) (refl, refl)
read_all-short (suc f) (c ∷ cs) m sizes h lt =
    let k = min (min (suc (sizes f).0) m) (suc (sizes f).1) in
    let (e, low, room) = read-short c cs m (sizes f).0 (sizes f).1 k lt refl in
    let (failed, rest) =
      read_all-short f (drop k (c ∷ cs)) (m - length (take k (c ∷ cs))) sizes
        (omega (arith, length-drop {0} k (c ∷ cs))) room in
    rw e (failed, ap (◌++◌ (take k (c ∷ cs))) rest ∙ take-append-drop k (c ∷ cs))
