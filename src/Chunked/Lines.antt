-- ===== src/Chunked/Lines.antt =====
-- Lines as `readLine` (http/request.go) reads them.
use go_http.Prelude.{◌<◌, false, [], ◌∷◌, ◌++◌, ◌≡◌, refl, arith, Bytes, All, length, length-append}
use go_http.Chunked.{crlf, slice, read_slice, is_line_space, chop, line, read_line}

abbrev pub Solid : Bytes → Type 0
Solid = All (λ c. is_line_space c ≡ false)

read_slice-Solid :
    (s w : Bytes) → Solid s → read_slice (s ++ (b'\r' ∷ b'\n' ∷ w)) ≡ slice (s ++ crlf) w
unfolding read_slice
read_slice-Solid [] w h = refl
read_slice-Solid (c ∷ s) w h = ground (arith, h.0, read_slice-Solid s w h.1)

chop-Solid : (s : Bytes) → Solid s → chop (s ++ crlf) ≡ s
unfolding chop
chop-Solid [] h = refl
chop-Solid (c ∷ s) h = ground (arith, h.0, chop-Solid s h.1)

-- A short line with no white space, and its end.
pub read_line-Solid :
    (s w : Bytes) → Solid s → length s < 4000 → read_line (s ++ (b'\r' ∷ b'\n' ∷ w)) ≡ line s w
unfolding read_line
read_line-Solid s w h short =
    rw (read_slice-Solid s w h, read_line, chop-Solid s h)
      (ground (arith, length-append {0} s crlf))
