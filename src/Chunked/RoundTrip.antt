-- ===== src/Chunked/RoundTrip.antt =====
-- The chunked reader (http/request.go) undoes the chunked writer (http/chunked.go).
use go_http.Prelude.{
  ℕ, zero, suc, ◌+◌, ◌-◌, ◌^◌, ◌≤◌, ◌<◌, min, true, ◌&&◌, List, [], ◌∷◌, ◌++◌, ◌≡◌, ◌≢◌, refl, ap,
  sym, ◌∙◌, none, some, arith, Bytes, All, length, length-append, length-take, length-drop, take,
  drop, take-append_le, drop-append_le, take-append-drop, flatten, is_empty-append_cons,
  append_assoc, ◌==◌, if◌then◌else◌,
}
use go_http.Strconv.{uitob64, btoui64}
use go_http.Strconv.Laws.{btoui64-uitob64}
use go_http.Errors.{eof}
use go_http.Chunked.{
  crlf, chunk, close_chunks, chunks, line, read_line, ChunkedReader, skip_trailer, begin_sized,
  begin_chunk, end_chunk, read_data, read, read_all,
}
use go_http.Chunked.Digits.{hex-All, hex-length}
use go_http.Chunked.Lines.{read_line-Solid}

-- at the start of a chunk, with `w` to come
abbrev pub at_start : Bytes → ChunkedReader
at_start w = record { wire = w; n = 0; err = none }

-- `d` is left of a chunk, and `w` comes behind the chunk
abbrev pub inside : Bytes → Bytes → ChunkedReader
inside d w = record { wire = d ++ (crlf ++ w); n = length d; err = none }

abbrev pub resume : Bytes → Bytes → ChunkedReader
resume [] w = at_start w
resume (c ∷ cs) w = inside (c ∷ cs) w

abbrev pub finished : Bytes → ChunkedReader
finished w = record { wire = w; n = 0; err = some eof }

begin_chunk-line :
    (wire s rest : Bytes) (m : ℕ)
    → read_line wire ≡ line s rest
    → btoui64 s 16 ≡ some m
    → begin_chunk (at_start wire) ≡ begin_sized (at_start wire) rest (some m)
unfolding begin_chunk
begin_chunk-line wire s rest m e v = rw (e, begin_chunk, v)

chunk-wire :
    (c : ℕ) (cs w : Bytes)
    → chunk (c ∷ cs) ++ w
      ≡ uitob64 (length (c ∷ cs)) 16 ++ (b'\r' ∷ b'\n' ∷ ((c ∷ cs) ++ (crlf ++ w)))
unfolding chunk
chunk-wire c cs w =
    append_assoc (uitob64 (length (c ∷ cs)) 16) _ w
    ∙ ap (λ t. uitob64 (length (c ∷ cs)) 16 ++ (b'\r' ∷ b'\n' ∷ c ∷ t)) (append_assoc cs crlf w)

begin_chunk-chunk :
    (c : ℕ) (cs w : Bytes)
    → length (c ∷ cs) < 2 ^ 64
    → begin_chunk (at_start (chunk (c ∷ cs) ++ w)) ≡ inside (c ∷ cs) w
begin_chunk-chunk c cs w h =
    let size = length (c ∷ cs) in
    let digits = uitob64 size 16 in
    let short : length digits < 4000 = omega (arith, hex-length size h) in
    ap (λ x. begin_chunk (at_start x)) (chunk-wire c cs w)
    ∙ begin_chunk-line _ digits _ size
        (read_line-Solid digits ((c ∷ cs) ++ (crlf ++ w)) (hex-All size) short)
        (btoui64-uitob64 16 (omega arith) (omega arith) size h)
    ∙ begun
  where
    begun :
        begin_sized
          (at_start (uitob64 (length (c ∷ cs)) 16 ++ (b'\r' ∷ b'\n' ∷ ((c ∷ cs) ++ (crlf ++ w)))))
          ((c ∷ cs) ++ (crlf ++ w))
          (some (length (c ∷ cs)))
        ≡ inside (c ∷ cs) w
    begun = unfold begin_sized in refl

zero_size : btoui64 (b'0' ∷ []) 16 ≡ some 0
unfolding btoui64
zero_size = refl

skip_trailer-crlf : (f : ℕ) (w : Bytes) → skip_trailer (suc f) (at_start (crlf ++ w)) ≡ finished w
unfolding skip_trailer
skip_trailer-crlf f w = rw (read_line-Solid [] w tt (omega arith), skip_trailer)

begin_chunk-close : (w : Bytes) → begin_chunk (at_start (close_chunks ++ (crlf ++ w))) ≡ finished w
unfolding begin_sized
begin_chunk-close w =
    begin_chunk-line _ (b'0' ∷ []) (crlf ++ w) 0
      (read_line-Solid (b'0' ∷ []) (crlf ++ w) (refl, tt) (omega arith)) zero_size
    ∙ skip_trailer-crlf (length (crlf ++ w)) w

end_data :
    (d w : Bytes) (m : ℕ)
    → length d ≡ m
    → (let after : ChunkedReader = record { wire = d ++ (crlf ++ w); n = m; err = none } in
        if (m == 0) && true then end_chunk after else after)
      ≡ resume d w
unfolding end_chunk
end_data [] w m e = rw (← e)
end_data (c ∷ cs) w m e = rw (← e) (ground arith)

read_data-inside :
    (d w : Bytes) (size give k : ℕ)
    → min (min size (length d)) give ≡ k
    → d ≢ []
    → k ≤ length d
    → read_data (inside d w) size give ≡ (resume (drop k d) w, take k d)
unfolding read_data
read_data-inside d w size give k e ne most =
    rw
      (
        e,
        take-append_le k d (crlf ++ w) most,
        drop-append_le k d (crlf ++ w) most,
        is_empty-append_cons d b'\r' (b'\n' ∷ w),
      )
      (ap (λ r. (r, take k d))
        (end_data (drop k d) w (length d - length (take k d))
          (omega (arith, length-drop {0} k d, length-take {0} k d))))

-- the reads' sizes are numbers from 1 on
abbrev Sizes : Type 0
Sizes = ℕ → ℕ × ℕ

min_bounds :
    (a b n : ℕ) → 0 < n → (1 ≤ min (min (suc a) n) (suc b)) × (min (min (suc a) n) (suc b) ≤ n)
min_bounds a b n h = (omega arith, omega arith)

-- One read that hands over `got` and leaves `d'` of the chunk, and then the others.
read_all-step :
    (f : ℕ) (sizes : Sizes) (cr : ChunkedReader) (got d' w more final : Bytes)
    → read cr (suc (sizes f).0) (suc (sizes f).1) ≡ (resume d' w, got)
    → read_all f sizes (resume d' w) ≡ (finished final, more)
    → read_all (suc f) sizes cr ≡ (finished final, got ++ more)
unfolding read_all
read_all-step f sizes cr got [] w more final e ih = rw (e, ih)
read_all-step f sizes cr got (c ∷ d') w more final e ih = rw (e, ih)

read-inside :
    (c : ℕ) (cs w : Bytes) (size give : ℕ)
    → read (inside (c ∷ cs) w) size give ≡ read_data (inside (c ∷ cs) w) size give
unfolding read
read-inside c cs w size give = ground arith

read-chunk :
    (c : ℕ) (cs w : Bytes) (size give : ℕ)
    → length (c ∷ cs) < 2 ^ 64
    → read (at_start (chunk (c ∷ cs) ++ w)) size give ≡ read_data (inside (c ∷ cs) w) size give
unfolding read
read-chunk c cs w size give h = rw (begin_chunk-chunk c cs w h)

read_all-close :
    (f : ℕ) (sizes : Sizes) (w : Bytes)
    → read_all (suc f) sizes (at_start (close_chunks ++ (crlf ++ w))) ≡ (finished w, [])
unfolding read_all read
read_all-close f sizes w = rw (begin_chunk-close w)

-- the wire behind the chunk that is being read
abbrev wire_behind : List Bytes → Bytes → Bytes
wire_behind ps w = chunks ps ++ (close_chunks ++ (crlf ++ w))

abbrev Sized : List Bytes → Type 0
Sized = All (λ p. length p < 2 ^ 64)

-- A round that reads from a chunk with `c ∷ cs` left, by what the rounds behind it do.
read_all-data :
    (f : ℕ) (sizes : Sizes) (cr : ChunkedReader) (c : ℕ) (cs w flat final : Bytes)
    → read cr (suc (sizes f).0) (suc (sizes f).1)
      ≡ read_data (inside (c ∷ cs) w) (suc (sizes f).0) (suc (sizes f).1)
    → ((k : ℕ)
        → 1 ≤ k
        → k ≤ length (c ∷ cs)
        → read_all f sizes (resume (drop k (c ∷ cs)) w) ≡ (finished final, drop k (c ∷ cs) ++ flat))
    → read_all (suc f) sizes cr ≡ (finished final, (c ∷ cs) ++ flat)
read_all-data f sizes cr c cs w flat final e ih =
    let d = c ∷ cs in
    let k = min (min (suc (sizes f).0) (length d)) (suc (sizes f).1) in
    let (low, high) = min_bounds (sizes f).0 (sizes f).1 (length d) (omega arith) in
    read_all-step f sizes cr (take k d) (drop k d) w (drop k d ++ flat) final
      (e ∙ read_data-inside d w (suc (sizes f).0) (suc (sizes f).1) k refl (λ x. cc) high)
      (ih k low high)
    ∙ ap (λ t. (finished final, t))
        (sym (append_assoc (take k d) (drop k d) flat) ∙ ap (λ t. t ++ flat) (take-append-drop k d))

read_all-chunks :
    (f : ℕ) (ps : List Bytes) (d w : Bytes) (sizes : Sizes)
    → Sized ps
    → length d + length (flatten ps) < f
    → read_all f sizes (resume d (wire_behind ps w)) ≡ (finished w, d ++ flatten ps)
unfolding chunks chunk
read_all-chunks zero ps d w sizes h lt = absurd (omega arith)
read_all-chunks (suc f) ps (c ∷ cs) w sizes h lt =
    read_all-data f sizes (inside (c ∷ cs) (wire_behind ps w)) c cs (wire_behind ps w) (flatten ps)
      w (read-inside c cs (wire_behind ps w) (suc (sizes f).0) (suc (sizes f).1))
      (λ k low high.
        read_all-chunks f ps (drop k (c ∷ cs)) w sizes h
          (omega (arith, length-drop {0} k (c ∷ cs))))
read_all-chunks (suc f) [] [] w sizes h lt = read_all-close f sizes w
read_all-chunks (suc f) ([] ∷ ps) [] w sizes h lt = read_all-chunks (suc f) ps [] w sizes h.1 lt
read_all-chunks (suc f) ((c ∷ cs) ∷ ps) [] w sizes h lt =
    ap (λ t. read_all (suc f) sizes (at_start t)) (append_assoc (chunk (c ∷ cs)) (chunks ps) _)
    ∙ read_all-data f sizes (at_start (chunk (c ∷ cs) ++ wire_behind ps w)) c cs (wire_behind ps w)
        (flatten ps) w (read-chunk c cs (wire_behind ps w) (suc (sizes f).0) (suc (sizes f).1) h.0)
        (λ k low high.
          read_all-chunks f ps (drop k (c ∷ cs)) w sizes h.1
            (omega (arith, length-drop {0} k (c ∷ cs), length-append {0} cs (flatten ps))))

-- Whatever the pieces that are written, each of fewer than 2^64 bytes, and whatever sizes the
-- reader asks for and is handed, the chunked reader returns the pieces' bytes in order, ends with
-- `os.EOF`, and leaves what follows the body on the wire. One read for each byte, and one more,
-- are enough.
pub read_all-chunked :
    (ps : List Bytes) (w : Bytes) (sizes : ℕ → ℕ × ℕ)
    → All (λ p. length p < 2 ^ 64) ps
    → read_all
        (suc (length (flatten ps)))
        sizes
        (record { wire = chunks ps ++ (close_chunks ++ (crlf ++ w)); n = 0; err = none })
      ≡ (record { wire = w; n = 0; err = some eof }, flatten ps)
read_all-chunked ps w sizes h =
    read_all-chunks (suc (length (flatten ps))) ps [] w sizes h (omega arith)
