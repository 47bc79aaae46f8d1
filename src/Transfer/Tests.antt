-- ===== src/Transfer/Tests.antt =====
-- The theorems on http/transfer.go at concrete messages.
use go_http.Prelude.{
  ℕ, ◌<◌, ◌^◌, ◌≡◌, ◌⊎◌, inr, refl, [], ◌∷◌, ◌++◌, some, none, true, false, length, All, arith,
  codes, Bytes, str_eq, trim_space, split, lower,
}
use go_http.Int.{pos}
use go_http.Errors.{eof}
use go_http.Header.{Header, lookup, get, del, delete}
use go_http.Chunked.{chunks, close_chunks, crlf, read_all}
use go_http.Transfer.{ok, chunked, proto_at_least, no_body_expected}
use go_http.Transfer.Writer.{
  Source, Message, TransferWriter, request, response, new_transfer_writer, write_body, length_line,
  minus_one,
}
use go_http.Transfer.Body.{Body, BodyReader, chunked_reader, limited_reader, wire_of, close}
use go_http.Transfer.Reader.{
  Transferred, request_head, fix_encodings, fix_transfer_encoding, read_transfer,
}
use go_http.Transfer.Closing.{close-chunked}
use go_http.Transfer.Framing.{fix_transfer_encoding_ok}
use go_http.Transfer.Requests.{read_transfer_request}
use go_http.Transfer.RoundTrip.{write_body-read_all}
use go_http.Transfer.Sanitized.{IsSanitized, new_transfer_writer-IsSanitized}
use go_http.Transfer.Sent.{length_line_post}

-- a body that comes in two pieces
abbrev said : Source
said = record { pieces = codes "hel" ∷ codes "lo" ∷ []; read_error = none; close_error = none }

-- a request to POST it, in HTTP/1.1 and with no length
abbrev posted : Message
posted = record {
  method = codes "POST";
  body = some said;
  content_length = pos 0;
  close = false;
  transfer_encoding = [];
  trailer = none;
  proto_major = 1;
  proto_minor = 1;
}

said_small : All (λ p. length p < 2 ^ 64) said.pieces
said_small = (omega arith, (omega arith, tt))

write_body-read_all_example :
    (t : TransferWriter) × (out : Bytes) × (new_transfer_writer (request posted) ≡ ok t)
    × (length_line t ≡ codes "Transfer-Encoding: chunked\r\n")
    × (write_body t ≡ (out, none))
    × ((w : Bytes) (sizes : ℕ → ℕ × ℕ)
        → read_all 6 sizes (record { wire = out ++ w; n = 0; err = none })
          ≡ (record { wire = w; n = 0; err = some eof }, codes "hello"))
write_body-read_all_example =
    write_body-read_all posted said refl refl refl (unfold proto_at_least in refl) (refl, refl)
      said_small (λ e. cc)

abbrev chunked_header : Header
chunked_header = (codes "Transfer-Encoding", codes "chunked" ∷ []) ∷ []

-- What is read of a body with a length.
abbrev counted : Transferred
counted = record {
  body = record {
    reader = limited_reader 0 (codes "GET");
    trailing = false;
    closing = false;
    closed = false;
    request_body_limit_hit = false;
  };
  content_length = pos 0;
  transfer_encoding = [];
  close = false;
  trailer = none;
}

counted_read : (read_transfer (request_head 1 1) [] (codes "GET")).1 ≡ ok counted
unfolding read_transfer lookup no_body_expected str_eq chunked trim_space get del delete
counted_read = refl

read_transfer_request_example :
    (((counted.transfer_encoding ≡ codes "chunked" ∷ [])
        × (counted.content_length ≡ minus_one)
        × (counted.body.reader ≡ chunked_reader (record { wire = codes "GET"; n = 0; err = none })))
      ⊎ ((counted.transfer_encoding ≡ [])
          × (n : ℕ) × (counted.content_length ≡ pos n)
          × (counted.body.reader ≡ limited_reader n (codes "GET"))))
    × (counted.trailer ≡ none)
    × (counted.close ≡ false)
read_transfer_request_example = read_transfer_request 1 1 [] (codes "GET") counted counted_read

abbrev body_on : BodyReader → Body
body_on r = record {
  reader = r;
  trailing = true;
  closing = false;
  closed = false;
  request_body_limit_hit = false;
}

abbrev sent_body : Body
sent_body = body_on (
    chunked_reader (record {
      wire = chunks said.pieces ++ (close_chunks ++ (crlf ++ codes "GET"));
      n = 0;
      err = none;
    }))

close-chunked_example :
    ((close 6 (λ i. i) sent_body).1 ≡ none)
    × ((close 6 (λ i. i) sent_body).0.closed ≡ true)
    × (wire_of (close 6 (λ i. i) sent_body).0.reader ≡ codes "GET")
close-chunked_example =
    close-chunked said.pieces (codes "GET") (λ i. i) sent_body said_small refl (refl, refl, refl)

abbrev te_header : Header
te_header =
    (codes "Transfer-Encoding", codes "chunked" ∷ [])
    ∷ (codes "Content-Length", codes "5" ∷ [])
    ∷ []

te_found : (fix_transfer_encoding (codes "POST") te_header).1 ≡ ok (codes "chunked" ∷ [])
unfolding fix_transfer_encoding lookup str_eq delete split lower trim_space fix_encodings
te_found = refl

fix_transfer_encoding_ok_example :
    (codes "chunked" ∷ [] ≡ [])
    ⊎ ((codes "chunked" ∷ [] ≡ codes "chunked" ∷ [])
        × (lookup (codes "Content-Length") (fix_transfer_encoding (codes "POST") te_header).0
            ≡ none))
fix_transfer_encoding_ok_example =
    fix_transfer_encoding_ok (codes "POST") te_header (codes "chunked" ∷ []) te_found

abbrev trailer_header : Header
trailer_header = (codes "Trailer", codes "X-Checksum" ∷ []) ∷ []

-- The writer of an answer in HTTP/1.0 with five bytes.
abbrev answer : Message
answer = record {
  method = [];
  body = some said;
  content_length = pos 5;
  close = true;
  transfer_encoding = [];
  trailer = none;
  proto_major = 1;
  proto_minor = 0;
}

abbrev answer_writer : TransferWriter
answer_writer = record {
  method = codes "GET";
  body = some said;
  response_to_head = false;
  content_length = pos 5;
  close = true;
  transfer_encoding = [];
  trailer = none;
}

answer_writer_made : new_transfer_writer (response (some (codes "GET")) answer) ≡ ok answer_writer
unfolding new_transfer_writer no_body_expected str_eq chunked proto_at_least
answer_writer_made = refl

new_transfer_writer-IsSanitized_example :
    IsSanitized answer_writer
    × (chunked answer_writer.transfer_encoding ≡ true → proto_at_least 1 0 1 1 ≡ true)
new_transfer_writer-IsSanitized_example =
    new_transfer_writer-IsSanitized (response (some (codes "GET")) answer) answer_writer
      answer_writer_made

answer_sent : write_body answer_writer ≡ (codes "hello", none)
unfolding write_body chunked
answer_sent = refl

-- the answer with no length
abbrev streamed : Message
streamed = record answer { content_length = minus_one }

length_line_post_example :
    (t : TransferWriter) × (new_transfer_writer (response (some (codes "PUT")) streamed) ≡ ok t)
    × (length_line t ≡ codes "Content-Length: -1\r\n")
length_line_post_example =
    length_line_post streamed said (codes "PUT") (inr refl) refl refl
      (unfold proto_at_least in refl)
