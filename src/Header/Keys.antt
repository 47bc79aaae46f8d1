-- ===== src/Header/Keys.antt =====
-- The canonical form of header keys (http/header.go, `CanonicalHeaderKey`).
use go_http.Prelude.{
  Bool, true, false, [], ◌∷◌, ◌≡◌, refl, sym, ap, ◌∙◌, ◌↔◌, arith, Bytes, to_lower, ◌==◌,
}
use go_http.Header.{canonical_from, canonical_header_key}

canonical_from-to_lower :
    (up : Bool) (s : Bytes) → canonical_from up (to_lower s) ≡ canonical_from up s
unfolding canonical_from
canonical_from-to_lower up [] = refl
canonical_from-to_lower true (c ∷ cs) = ground (arith, canonical_from-to_lower (c == b'-') cs)
canonical_from-to_lower false (c ∷ cs) = ground (arith, canonical_from-to_lower (c == b'-') cs)

to_lower-canonical_from : (up : Bool) (s : Bytes) → to_lower (canonical_from up s) ≡ to_lower s
unfolding canonical_from
to_lower-canonical_from up [] = refl
to_lower-canonical_from true (c ∷ cs) = ground (arith, to_lower-canonical_from (c == b'-') cs)
to_lower-canonical_from false (c ∷ cs) = ground (arith, to_lower-canonical_from (c == b'-') cs)

-- Two keys have one canonical form exactly when they differ in the case of letters alone.
pub canonical_header_key_iff :
    (s t : Bytes) → (canonical_header_key s ≡ canonical_header_key t) ↔ (to_lower s ≡ to_lower t)
unfolding canonical_header_key
canonical_header_key_iff s t = (
  λ e. sym (to_lower-canonical_from true s) ∙ ap to_lower e ∙ to_lower-canonical_from true t,
  λ e.
      sym (canonical_from-to_lower true s)
      ∙ ap (canonical_from true) e
      ∙ canonical_from-to_lower true t,
)
