-- ===== src/Header/Tests.antt =====
-- Runs of http/header.go, from http/header_test.go, and the theorems at concrete headers.
use go_http.Prelude.{count}
use go_http.Header.Wire.{CleanKeys}
use go_http.Prelude.{◌≡◌, refl, [], ◌∷◌, codes, str_eq, one_of, trim_space}
use go_http.Header.{Header, canonical_header_key, write_subset, newline_to_space, str_lt}

canonical_runs : canonical_header_key (codes "aCCEPT-encoDING") ≡ codes "Accept-Encoding"
unfolding canonical_header_key
canonical_runs = refl

abbrev sample : Header
sample =
    (codes "Content-Length", codes "0" ∷ codes "1" ∷ [])
    ∷ (codes "Blank", codes "" ∷ codes " a\nb " ∷ [])
    ∷ (codes "Expires", codes "-1" ∷ [])
    ∷ []

write_runs :
    write_subset sample (codes "Expires" ∷ [])
    ≡ codes "Blank: \r\nBlank: a b\r\nContent-Length: 0\r\nContent-Length: 1\r\n"
unfolding write_subset str_eq one_of trim_space newline_to_space str_lt
write_runs = refl

sample-CleanKeys : CleanKeys sample
unfolding count
sample-CleanKeys = ((refl, refl), ((refl, refl), ((refl, refl), tt)))
