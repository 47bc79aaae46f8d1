-- ===== src/Sniff.antt =====
-- http/sniff.go: the content type of data. The mp4 signature, which the table leaves out, is not modelled.
pub mod Types
mod Tests
use go_http.Prelude.{
  ℕ, zero, suc, ◌+◌, ◌*◌, ◌/◌, ◌%◌, Bool, true, false, not, ◌&&◌, ◌||◌, List, [], ◌∷◌, ◌++◌, Bytes,
  codes, str_eq, is_empty, length, take, drop, has_prefix, one_of, within, ltb, leb, ◌==◌,
  if◌then◌else◌, Option, none, some,
}

-- `sniffLen`
abbrev pub sniff_len : ℕ
sniff_len = 512

-- `isWS`
abbrev pub is_ws : ℕ → Bool
is_ws b = b == b'\t' || b == b'\n' || b == 12 || b == b'\n' || b == b' '

-- the implementations of `sniffSig`
pub data SniffSig : Type 0 where
  exact_sig : (sig ct : Bytes) → SniffSig
  masked_sig : (mask pat : Bytes) → (skip_ws : Bool) → (ct : Bytes) → SniffSig
  html_sig : Bytes → SniffSig
  text_sig : SniffSig

-- `a & b`, on the number of bits that is given
unfoldable pub bit_and : ℕ → ℕ → ℕ → ℕ
bit_and zero a b = 0
bit_and (suc w) a b = (a % 2) * (b % 2) + 2 * bit_and w (a / 2) (b / 2)

-- the loop over the mask; the data has the mask's length at least
unfoldable pub masked_match : Bytes → Bytes → Bytes → Bool
unfolding bit_and
masked_match [] pat text = true
masked_match (m ∷ mask) (p ∷ pat) (d ∷ text) =
    let rest = masked_match mask pat text in bit_and 8 d m == p && rest
masked_match (m ∷ mask) pat text = false

-- the loop over an HTML signature, and the test of the byte behind it
unfoldable pub html_match : Bytes → Bytes → Bool
unfolding bit_and
html_match [] [] = false
html_match [] (d ∷ text) = d == b' ' || d == b'>'
html_match (b ∷ h) [] = false
html_match (b ∷ h) (d ∷ text) =
    let db = if within b'A' b'Z' b then bit_and 8 d 0xDF else d in
    let rest = html_match h text in b == db && rest

-- the bytes that text does not have
unfoldable pub is_binary : ℕ → Bool
is_binary b = within 0x00 0x08 b || b == 0x0B || within 0x0E 0x1A b || within 0x1C 0x1F b

unfoldable pub has_binary : Bytes → Bool
unfolding is_binary
has_binary [] = false
has_binary (b ∷ text) = is_binary b || has_binary text

-- the `match` of each signature
unfoldable pub match : SniffSig → Bytes → ℕ → Bytes
unfolding masked_match html_match has_binary
match (exact_sig sig ct) text first_non_ws = if has_prefix text sig then ct else []
match (masked_sig mask pat skip_ws ct) text first_non_ws =
    let seen = if skip_ws then drop first_non_ws text else text in
    if ltb (length seen) (length mask) then [] else if masked_match mask pat seen then ct else []
match (html_sig h) text first_non_ws =
    let seen = drop first_non_ws text in
    if ltb (length seen) (length h + 1)
    then []
    else if html_match h seen
    then codes "text/html; charset=utf-8"
    else []
match text_sig text first_non_ws =
    if has_binary (drop first_non_ws text) then [] else codes "text/plain; charset=utf-8"

abbrev pub html_sigs : List SniffSig
html_sigs =
    html_sig (codes "<!DOCTYPE HTML")
    ∷ html_sig (codes "<HTML")
    ∷ html_sig (codes "<HEAD")
    ∷ html_sig (codes "<SCRIPT")
    ∷ html_sig (codes "<IFRAME")
    ∷ html_sig (codes "<H1")
    ∷ html_sig (codes "<DIV")
    ∷ html_sig (codes "<FONT")
    ∷ html_sig (codes "<TABLE")
    ∷ html_sig (codes "<A")
    ∷ html_sig (codes "<STYLE")
    ∷ html_sig (codes "<TITLE")
    ∷ html_sig (codes "<B")
    ∷ html_sig (codes "<BODY")
    ∷ html_sig (codes "<BR")
    ∷ html_sig (codes "<P")
    ∷ html_sig (codes "<!--")
    ∷ []

abbrev repeated : ℕ → ℕ → Bytes → Bytes
repeated zero b rest = rest
repeated (suc n) b rest = b ∷ repeated n b rest

abbrev pub other_sigs : List SniffSig
other_sigs =
    masked_sig (repeated 5 0xFF []) (codes "<?xml") true (codes "text/xml; charset=utf-8")
    ∷ exact_sig (codes "%PDF-") (codes "application/pdf")
    ∷ exact_sig (codes "%!PS-Adobe-") (codes "application/postscript")
    ∷ masked_sig (repeated 2 0xFF (repeated 2 0 [])) (0xFE ∷ 0xFF ∷ 0 ∷ 0 ∷ []) false
        (codes "text/plain; charset=utf-16be")
    ∷ masked_sig (repeated 2 0xFF (repeated 2 0 [])) (0xFF ∷ 0xFE ∷ 0 ∷ 0 ∷ []) false
        (codes "text/plain; charset=utf-16le")
    ∷ masked_sig (repeated 3 0xFF (repeated 1 0 [])) (0xEF ∷ 0xBB ∷ 0xBF ∷ 0 ∷ []) false
        (codes "text/plain; charset=utf-8")
    ∷ exact_sig (codes "GIF87a") (codes "image/gif")
    ∷ exact_sig (codes "GIF89a") (codes "image/gif")
    ∷ exact_sig (0x89 ∷ 0x50 ∷ 0x4E ∷ 0x47 ∷ 0x0D ∷ 0x0A ∷ 0x1A ∷ 0x0A ∷ []) (codes "image/png")
    ∷ exact_sig (0xFF ∷ 0xD8 ∷ 0xFF ∷ []) (codes "image/jpeg")
    ∷ exact_sig (codes "BM") (codes "image/bmp")
    ∷ masked_sig (repeated 4 0xFF (repeated 4 0 (repeated 6 0xFF [])))
        (codes "RIFF" ++ repeated 4 0 (codes "WEBPVP")) false (codes "image/webp")
    ∷ exact_sig (0x00 ∷ 0x00 ∷ 0x01 ∷ 0x00 ∷ []) (codes "image/vnd.microsoft.icon")
    ∷ exact_sig (0x4F ∷ 0x67 ∷ 0x67 ∷ 0x53 ∷ 0x00 ∷ []) (codes "application/ogg")
    ∷ masked_sig (repeated 4 0xFF (repeated 4 0 (repeated 4 0xFF [])))
        (codes "RIFF" ++ repeated 4 0 (codes "WAVE")) false (codes "audio/wave")
    ∷ exact_sig (0x1A ∷ 0x45 ∷ 0xDF ∷ 0xA3 ∷ []) (codes "video/webm")
    ∷ exact_sig (0x52 ∷ 0x61 ∷ 0x72 ∷ 0x20 ∷ 0x1A ∷ 0x07 ∷ 0x00 ∷ [])
        (codes "application/x-rar-compressed")
    ∷ exact_sig (0x50 ∷ 0x4B ∷ 0x03 ∷ 0x04 ∷ []) (codes "application/zip")
    ∷ exact_sig (0x1F ∷ 0x8B ∷ 0x08 ∷ []) (codes "application/x-gzip")
    ∷ text_sig
    ∷ []

-- `sniffSignatures`
abbrev pub sniff_signatures : List SniffSig
sniff_signatures = html_sigs ++ other_sigs

-- the loop over the signatures
unfoldable pub first_match : List SniffSig → Bytes → ℕ → Bytes
unfolding match
first_match [] text first_non_ws = codes "application/octet-stream"
first_match (sig ∷ sigs) text first_non_ws =
    let ct = match sig text first_non_ws in
    let rest = first_match sigs text first_non_ws in if not (is_empty ct) then ct else rest

-- the loop for the first byte that is no white space
unfoldable pub skip_ws : Bytes → ℕ
skip_ws [] = 0
skip_ws (b ∷ text) = let rest = skip_ws text in if is_ws b then suc rest else 0

-- `DetectContentType`
unfoldable pub detect_content_type : Bytes → Bytes
unfolding first_match skip_ws
detect_content_type text =
    let seen = take sniff_len text in first_match sniff_signatures seen (skip_ws seen)
