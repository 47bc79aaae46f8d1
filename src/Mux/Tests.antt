-- ===== src/Mux/Tests.antt =====
-- Runs of the ServeMux (http/server.go), from http/serve_test.go.
use go_http.Prelude.{ℕ, ◌≢◌, ◌≡◌, refl, [], ◌∷◌, some, none, codes, str_eq, ◌⊎◌, split, join}
use go_http.Mux.{ServeMux, match, serve_http, handled, redirected}
use go_http.Mux.Clean.{serve_http-redirected}
use go_http.Mux.Longest.{NoMatch, Longest, match-Longest}

-- handlers by number
abbrev some_mux : ServeMux ℕ
some_mux = (codes "/dir/", 1) ∷ (codes "/", 2) ∷ (codes "/dir/file", 3) ∷ []

mux_runs :
    (serve_http some_mux (codes "example.com") (codes "/dir/file") ≡ handled 3)
    × (serve_http some_mux (codes "example.com") (codes "/dir/other") ≡ handled 1)
    × (serve_http some_mux (codes "example.com") (codes "/a/../dir/./x/")
        ≡ redirected (codes "/dir/x/"))
unfolding serve_http str_eq split join
mux_runs = (refl, refl, refl)

match-Longest_example :
    ((match some_mux (codes "/dir/file") ≡ none) × NoMatch (codes "/dir/file") some_mux)
    ⊎ ((h : ℕ) × (match some_mux (codes "/dir/file") ≡ some h)
        × Longest (codes "/dir/file") some_mux h)
match-Longest_example = match-Longest some_mux (codes "/dir/file")

some_redirect :
    serve_http some_mux (codes "example.com") (codes "/a/../dir/./x/")
    ≡ redirected (codes "/dir/x/")
some_redirect = mux_runs.2

serve_http-redirected_example :
    serve_http some_mux (codes "example.org") (codes "/dir/x/") ≢ redirected (codes "/dir/x/")
serve_http-redirected_example =
    serve_http-redirected some_mux (codes "example.com") (codes "/a/../dir/./x/") (codes "/dir/x/")
      some_redirect (codes "example.org") (codes "/dir/x/")
