-- ===== src/Chunked/Tests.antt =====
-- Runs of the chunked coding.
use go_http.Prelude.{All, length, List, Bytes, arith, ◌<◌, ◌^◌}
use go_http.Chunked.RoundTrip.{read_all-chunked}
use go_http.Chunked.Truncated.{short, read_all-short}
use go_http.Prelude.{◌≡◌, refl, [], ◌∷◌, ◌++◌, codes, none, some}
use go_http.Strconv.{uitob64, btoui64}
use go_http.Errors.{eof}
use go_http.Chunked.{chunks, close_chunks, crlf, read_all, read_line}

read_runs :
    read_all 30
      (λ i. (2, i))
      (record {
        wire = codes "5\r\nhello\r\nA \r\n0123456789\r\n0\r\nX: y\r\n\r\nGET";
        n = 0;
        err = none;
      })
    ≡ (record { wire = codes "GET"; n = 0; err = some eof }, codes "hello0123456789")
unfolding read_all read_line btoui64
read_runs = refl

write_runs :
    chunks (codes "hello" ∷ [] ∷ codes "world, world, world" ∷ []) ++ (close_chunks ++ crlf)
    ≡ codes "5\r\nhello\r\n13\r\nworld, world, world\r\n0\r\n\r\n"
unfolding chunks uitob64
write_runs = refl

abbrev two_pieces : List Bytes
two_pieces = codes "hello" ∷ codes "world" ∷ []

two_pieces_small : All (λ p. length p < 2 ^ 64) two_pieces
two_pieces_small = (omega arith, (omega arith, tt))

read_all-chunked_example :
    read_all 11
      (λ i. (2, i))
      (record {
        wire = chunks two_pieces ++ (close_chunks ++ (crlf ++ codes "GET"));
        n = 0;
        err = none;
      })
    ≡ (record { wire = codes "GET"; n = 0; err = some eof }, codes "helloworld")
read_all-chunked_example = read_all-chunked two_pieces (codes "GET") (λ i. (2, i)) two_pieces_small

read_all-short_example :
    ((read_all 4 (λ i. (0, i)) (short (codes "hel") 5)).0.err ≡ some eof)
    × ((read_all 4 (λ i. (0, i)) (short (codes "hel") 5)).1 ≡ codes "hel")
read_all-short_example = read_all-short 4 (codes "hel") 5 (λ i. (0, i)) (omega arith) (omega arith)
