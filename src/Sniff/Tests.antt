-- ===== src/Sniff/Tests.antt =====
-- Runs of http/sniff.go, from http/sniff_test.go.
use go_http.Prelude.{◌≡◌, refl, [], ◌∷◌, codes, has_prefix}
use go_http.Sniff.{
  detect_content_type, match, first_match, skip_ws, masked_match, html_match, has_binary,
}

detect_runs :
    (detect_content_type (codes "Hi") ≡ codes "text/plain; charset=utf-8")
    × (detect_content_type (codes "  \n <hTMl>") ≡ codes "text/html; charset=utf-8")
    × (detect_content_type (0xFF ∷ 0xFE ∷ b'a' ∷ b'b' ∷ []) ≡ codes "text/plain; charset=utf-16le")
    × (detect_content_type (1 ∷ 2 ∷ 3 ∷ []) ≡ codes "application/octet-stream")
    × (detect_content_type (codes "\r\n<html>") ≡ codes "text/plain; charset=utf-8")
unfolding detect_content_type first_match match skip_ws masked_match html_match has_binary
    has_prefix
detect_runs = (refl, refl, refl, refl, refl)
