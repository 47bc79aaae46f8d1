-- ===== src/MaxBytes/Tests.antt =====
-- The theorems on the maxBytesReader (http/request.go) at a concrete body.
use go_http.Prelude.{ℕ, ◌+◌, ◌≡◌, refl, [], ◌∷◌, true, false, codes, length, List}
use go_http.Int.{pos}
use go_http.Transfer.Body
use go_http.Transfer.Body.{Body, limited_reader, read_from}
use go_http.MaxBytes.{MaxBytesReader, max_bytes_reader, read_each}
use go_http.MaxBytes.Bounded.{read_each-limit}

abbrev long_body : Body
long_body = record {
  reader = limited_reader 8 (codes "too long");
  trailing = false;
  closing = false;
  closed = false;
  request_body_limit_hit = false;
}

abbrev three : MaxBytesReader
three = max_bytes_reader true long_body (pos 3)

abbrev reads_of_two : List (ℕ × ℕ)
reads_of_two = (2, 5) ∷ (2, 5) ∷ (2, 5) ∷ []

limited_runs :
    ((read_each reads_of_two three).1 ≡ codes "too")
    × ((read_each reads_of_two three).0.too_large ≡ 1)
unfolding read_each Body.read read_from
limited_runs = (refl, refl)

read_each-limit_example :
    (m : ℕ) × ((read_each reads_of_two three).0.n ≡ pos m)
    × (m + length (read_each reads_of_two three).1 ≡ 3)
read_each-limit_example = read_each-limit reads_of_two three 3 refl

abbrev nothing_left : MaxBytesReader
nothing_left = max_bytes_reader true long_body (pos 0)
