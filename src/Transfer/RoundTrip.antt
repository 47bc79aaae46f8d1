-- ===== src/Transfer/RoundTrip.antt =====
-- From the transferWriter to the transferReader (http/transfer.go).
use go_http.Prelude.{
  ◌^◌, ℕ, suc, true, false, List, [], ◌∷◌, ◌++◌, none, some, Bytes, ◌≡◌, ◌≢◌, refl, sym, ◌∙◌, arith,
  append_assoc, length, All, flatten, ◌<◌, codes, str_eq, split_onto, trim_left, is_white, upper,
  split, trim_space, lower,
}
use go_http.Int.{pos}
use go_http.Errors.{eof}
use go_http.Header.{Header, lookup, delete, get, canonical_header_key, canonical_from}
use go_http.Header.Maps.{lookup-delete}
use go_http.Chunked.{chunks, close_chunks, crlf, read_all}
use go_http.Chunked.RoundTrip.{read_all-chunked}
use go_http.Transfer.{ok, chunked, no_body_expected, proto_at_least}
use go_http.Transfer.Body.{chunked_reader}
use go_http.Transfer.Writer.{
  Source, Message, request, TransferWriter, new_transfer_writer, from_request, guess_length, probe,
  peek, sanitize, sanitize_body, sanitize_trailer, extract, minus_one, write_body, write_source,
  finish_body, length_line, should_send_content_length,
}
use go_http.Transfer.Reader.{
  Transferred, transferred, request_head, read_transfer, read_fields, fix_transfer_encoding,
  fix_encodings, fix_length, fix_trailer,
}

abbrev Small : List Bytes → Type 0
Small ps = All (λ p. length p < 2 ^ 64) ps

peek-some :
    (ps : List Bytes)
    → Small ps
    → flatten ps ≢ []
    → (qs : List Bytes) × (peek ps ≡ some qs) × (flatten qs ≡ flatten ps) × Small qs
unfolding peek
peek-some [] small ne = absurd (ne refl)
peek-some ([] ∷ ps) (_, small) ne = peek-some ps small ne
peek-some ((c ∷ cs) ∷ ps) (h, small) ne =
    ((c ∷ []) ∷ cs ∷ ps, refl, refl, (ground arith, (ground arith, small)))

-- A request of HTTP/1.1 or later with a body that is not empty, no length and no transfer encoding
-- of its own is sent in the chunked coding, if the body is read and closed with no error and in
-- pieces of fewer than 2^64 bytes. Whatever follows on the connection, what `WriteBody` sends is
-- read back as the bytes of the body.
pub write_body-read_all :
    (m : Message) (s : Source)
    → m.body ≡ some s
    → m.content_length ≡ pos 0
    → m.transfer_encoding ≡ []
    → proto_at_least m.proto_major m.proto_minor 1 1 ≡ true
    → (s.read_error ≡ none) × (s.close_error ≡ none)
    → All (λ p. length p < 2 ^ 64) s.pieces
    → flatten s.pieces ≢ []
    → (t : TransferWriter) × (out : Bytes) × (new_transfer_writer (request m) ≡ ok t)
      × (length_line t ≡ codes "Transfer-Encoding: chunked\r\n")
      × (write_body t ≡ (out, none))
      × ((w : Bytes) (sizes : ℕ → ℕ × ℕ)
          → read_all
              (suc (length (flatten s.pieces)))
              sizes
              (record { wire = out ++ w; n = 0; err = none })
            ≡ (record { wire = w; n = 0; err = some eof }, flatten s.pieces))
unfolding new_transfer_writer write_body
write_body-read_all m s b c te new (r, cl) small ne =
    let (qs, e, same, small') = peek-some s.pieces small ne in
    let s' : Source = record s { pieces = qs } in
    let t : TransferWriter = record (extract m.method false m) {
      body = some s';
      content_length = minus_one;
      transfer_encoding = codes "chunked" ∷ [];
    } in
    (
      t,
      chunks qs ++ (close_chunks ++ crlf),
      unfold sanitize sanitize_body sanitize_trailer from_request guess_length probe chunked
            str_eq in
          rw (new_transfer_writer, from_request, b, c, te, new, guess_length, probe, e) refl,
      unfold length_line should_send_content_length chunked str_eq in refl,
      unfold write_source finish_body chunked str_eq in
          rw (write_source, r, cl, append_assoc (chunks qs) close_chunks crlf) refl,
      λ w sizes.
          rw (append_assoc (chunks qs) (close_chunks ++ crlf) w, sym same)
            (read_all-chunked qs w sizes small'),
    )

abbrev te_key : Bytes
te_key = codes "Transfer-Encoding"

module _ (header : Header) where
  abbrev cleared : Header
  cleared = delete (codes "Content-Length") (delete te_key header)

  clears :
      lookup te_key header ≡ some (codes "chunked" ∷ [])
      → fix_transfer_encoding (codes "GET") header ≡ (cleared, ok (codes "chunked" ∷ []))
  unfolding fix_transfer_encoding
  clears e =
      unfold fix_encodings split split_onto trim_space trim_left is_white lower str_eq in
      rw (fix_transfer_encoding, e) refl

  no_length :
      fix_length false 200 (codes "GET") cleared (codes "chunked" ∷ []) ≡ (cleared, ok minus_one)
  unfolding fix_length chunked no_body_expected str_eq
  no_length = refl

  trailer_of_cleared :
      lookup (codes "Trailer") header ≡ none → lookup (codes "Trailer") cleared ≡ none
  unfolding str_eq
  trailer_of_cleared e =
      lookup-delete (codes "Content-Length") (codes "Trailer") (delete te_key header)
      ∙ lookup-delete te_key (codes "Trailer") header
      ∙ e

  no_trailer :
      lookup (codes "Trailer") header ≡ none
      → fix_trailer cleared (codes "chunked" ∷ []) ≡ (cleared, ok none)
  unfolding fix_trailer get canonical_header_key canonical_from upper lower
  no_trailer e = rw (fix_trailer, get, trailer_of_cleared e) refl

-- `readTransfer` finds a chunked body in a request whose header says so and names no trailer.
pub read_transfer_chunked :
    (major minor : ℕ) (header : Header) (wire : Bytes)
    → lookup (codes "Transfer-Encoding") header ≡ some (codes "chunked" ∷ [])
    → lookup (codes "Trailer") header ≡ none
    → (t : Transferred) × ((read_transfer (request_head major minor) header wire).1 ≡ ok t)
      × (t.body.reader ≡ chunked_reader (record { wire = wire; n = 0; err = none }))
unfolding read_transfer read_fields
read_transfer_chunked major minor header wire e t =
    rw (read_fields, clears header e, no_length header, no_trailer header t)
      (
        transferred false 200 false (codes "chunked" ∷ []) minus_one none wire,
        refl,
        unfold transferred chunked str_eq in refl,
      )
