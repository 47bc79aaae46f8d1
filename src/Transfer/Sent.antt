-- ===== src/Transfer/Sent.antt =====
-- What `WriteBody` and `WriteHeader` (http/transfer.go) send.
use go_http.Prelude.{
  ℕ, zero, suc, true, false, ◌||◌, List, [], ◌∷◌, ◌++◌, ◌≡◌, refl, ap, none, some, arith, Bytes,
  codes, str_eq, length, take, flatten, ◌⊎◌, inl, inr, append_assoc,
}
use go_http.Int.{ℤ, pos, negsuc}
use go_http.Strconv.{itoa64}
use go_http.Errors.{body_length}
use go_http.Chunked.{crlf, chunks, close_chunks}
use go_http.Transfer.{ok, chunked, no_body_expected, proto_at_least}
use go_http.Transfer.Writer.{
  Source, Message, response, TransferWriter, new_transfer_writer, extract, sanitize, sanitize_body,
  sanitize_trailer, minus_one, finish_body, write_source, write_body, should_send_content_length,
  length_line,
}

take_all {ℓ} : {A : Type ℓ} (n : ℕ) (xs : List A) → n ≡ length xs → take n xs ≡ xs
take_all zero [] e = refl
take_all zero (x ∷ xs) e = absurd (omega arith)
take_all (suc n) [] e = absurd (omega arith)
take_all (suc n) (x ∷ xs) e = ap (◌∷◌ x) (take_all n xs (omega arith))

abbrev Whole : TransferWriter → Source → Bytes → Type 0
Whole t s out =
    ((chunked t.transfer_encoding ≡ true) × (out ≡ chunks s.pieces ++ (close_chunks ++ crlf)))
    ⊎ ((chunked t.transfer_encoding ≡ false)
        × (out ≡ flatten s.pieces)
        × ((t.content_length ≡ minus_one) ⊎ (t.content_length ≡ pos (length out))))

write_source-Whole :
    (t : TransferWriter) (s : Source) (out : Bytes) (cl : ℤ)
    → t.content_length ≡ cl
    → write_source t s ≡ (out, none)
    → Whole t s out
unfolding write_source
write_source-Whole t s out (negsuc n) c e =
    ground (arith, append_assoc (chunks s.pieces) close_chunks crlf)
write_source-Whole t s out (pos n) c e =
    ground (arith, append_assoc (chunks s.pieces) close_chunks crlf, take_all n (flatten s.pieces))

-- If `WriteBody` reports success for a writer with a body, then what it has put on the wire is the
-- whole body: as chunks with the last chunk and the empty trailer, or byte by byte, and then of
-- the declared length if there is one.
pub write_body_success :
    (t : TransferWriter) (s : Source) (out : Bytes)
    → t.body ≡ some s
    → write_body t ≡ (out, none)
    → ((chunked t.transfer_encoding ≡ true) × (out ≡ chunks s.pieces ++ (close_chunks ++ crlf)))
      ⊎ ((chunked t.transfer_encoding ≡ false)
          × (out ≡ flatten s.pieces)
          × ((t.content_length ≡ minus_one) ⊎ (t.content_length ≡ pos (length out))))
unfolding write_body
write_body_success t s out b e =
    write_source-Whole t s out t.content_length refl (rw (b, write_body) at e)

take-length : (xs : Bytes) → take (length xs) xs ≡ xs
take-length xs = take_all (length xs) xs refl

-- The other way round: a body that is read and closed with no error is sent with success if its
-- length is unknown, or if it is not chunked and has just the declared length.
pub write_body_total :
    (t : TransferWriter) (s : Source)
    → t.body ≡ some s
    → s.read_error ≡ none
    → s.close_error ≡ none
    → (t.content_length ≡ minus_one)
      ⊎ ((chunked t.transfer_encoding ≡ false)
          × (t.content_length ≡ pos (length (flatten s.pieces))))
    → (write_body t).1 ≡ none
unfolding write_body
write_body_total t s b r c h = rw (b, write_body) (ground arith)

-- The answer to HEAD cannot be sent with its length: for every response to HEAD that declares a
-- length above zero, `WriteBody` sends nothing and reports a body of the wrong length.
pub write_body_head :
    (m : Message) (n : ℕ)
    → m.content_length ≡ pos (suc n)
    → (t : TransferWriter) × (new_transfer_writer (response (some (codes "HEAD")) m) ≡ ok t)
      × (write_body t ≡ ([], some (body_length (pos (suc n)) (pos 0))))
unfolding new_transfer_writer write_body
write_body_head m n e = (
  sanitize_trailer (record (extract (codes "HEAD") true m) { body = none; transfer_encoding = [] }),
  unfold sanitize no_body_expected str_eq in ground arith,
  unfold finish_body sanitize_trailer chunked in ground arith,
)

posts :
    (method : Bytes)
    → (method ≡ codes "POST") ⊎ (method ≡ codes "PUT")
    → (no_body_expected method ≡ false)
      × ((str_eq method (codes "POST") || str_eq method (codes "PUT")) ≡ true)
unfolding no_body_expected str_eq
posts method (inl e) = rw e (refl, refl)
posts method (inr e) = rw e (refl, refl)

line_of_minus_one :
    (t : TransferWriter)
    → should_send_content_length t ≡ true
    → t.content_length ≡ minus_one
    → length_line t ≡ codes "Content-Length: -1\r\n"
unfolding length_line itoa64
line_of_minus_one t e c = rw (e, c, length_line) refl

-- An answer to POST or PUT of unknown length, in HTTP/1.0 and with a body, is announced with a
-- `Content-Length` of -1.
pub length_line_post :
    (m : Message) (s : Source) (method : Bytes)
    → (method ≡ codes "POST") ⊎ (method ≡ codes "PUT")
    → m.body ≡ some s
    → m.content_length ≡ minus_one
    → proto_at_least m.proto_major m.proto_minor 1 1 ≡ false
    → (t : TransferWriter) × (new_transfer_writer (response (some method) m) ≡ ok t)
      × (length_line t ≡ codes "Content-Length: -1\r\n")
unfolding new_transfer_writer
length_line_post m s method p b c old =
    let t : TransferWriter = sanitize_trailer (sanitize_body false (extract method false m)) in
    (
      t,
      rw (old, (posts method p).0) (unfold sanitize in refl),
      line_of_minus_one t
          (unfold sanitize_body sanitize_trailer should_send_content_length chunked in
            rw
              (
                b,
                c,
                (posts method p).1,
                sanitize_body,
                sanitize_trailer,
                should_send_content_length,
                chunked,
              )
              refl)
          (unfold sanitize_body sanitize_trailer chunked in
            rw (b, c, sanitize_body, sanitize_trailer) refl),
    )
