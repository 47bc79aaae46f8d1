-- ===== src/Version/Tests.antt =====
-- Runs of `ParseHTTPVersion` (http/request.go), from http/request_test.go.
use go_http.Prelude.{◌≡◌, refl, ◌∷◌, ◌++◌, some, none, codes, arith, str_eq}
use go_http.Strconv.{uitob64}
use go_http.Version.{parse_http_version}
use go_http.Version.Printed.{parse_http_version-printed}

version_runs :
    (parse_http_version (codes "HTTP/1.1") ≡ some (1, 1))
    × (parse_http_version (codes "HTTP/3.14 ") ≡ none)
    × (parse_http_version (codes "HTTP/1000001.1") ≡ none)
unfolding parse_http_version str_eq
version_runs = (refl, refl, refl)

parse_http_version-printed_example :
    parse_http_version (codes "HTTP/" ++ (uitob64 1 10 ++ (b'.' ∷ uitob64 25 10))) ≡ some (1, 25)
parse_http_version-printed_example = parse_http_version-printed 1 25 (omega arith) (omega arith)
