-- ===== src/Responses/Tests.antt =====
-- A response that was read and is written again.
use go_http.Prelude.{
  inr, ◌≡◌, ◌++◌, refl, false, [], ◌∷◌, some, none, Bytes, codes, All, map, if◌then◌else◌, arith,
  all_bytes, lower, upper, str_eq, trim_space,
}
use go_http.Int.{pos}
use go_http.Strconv.{itoa64}
use go_http.Header.{index, lookup, is_excluded, write_subset, canonical_header_key, canonical_from}
use go_http.Transfer.Writer
use go_http.Transfer.{chunked, is_identity, no_body_expected, ok, proto_at_least}
use go_http.Transfer.Writer.{
  Source, Message, TransferWriter, response, new_transfer_writer, write_body,
}
use go_http.Mime.Fields.{IsKey-of}
use go_http.Mime.Headers.{IsField, clean}
use go_http.Mime.Values.{line_values}
use go_http.Requests.Lines.{framing_lines}
use go_http.Transfer.Reader.{body_reader}
use go_http.Transfer.Writer.{should_send_content_length}
use go_http.Responses.Finished.{kept_keys}
use go_http.Responses.{
  Received, Answer, read_response, write_response, reason_of, proto_text, resp_exclude_header,
}
use go_http.Responses.RoundTrip.{read_response-write}

abbrev hello : Source
hello = record { pieces = codes "hello" ∷ []; read_error = none; close_error = none }

-- as `ReadResponse` sets the status
abbrev relayed : Answer
relayed = record {
  message = record {
    method = [];
    body = some hello;
    content_length = pos 5;
    close = false;
    transfer_encoding = [];
    trailer = none;
    proto_major = 1;
    proto_minor = 1;
  };
  status = codes "200 OK";
  status_code = pos 200;
  header = (codes "Accept", codes "*/*" ∷ []) ∷ [];
  request_method = some (codes "get");
}

abbrev relayed_writer : TransferWriter
relayed_writer = record {
  method = codes "GET";
  body = some hello;
  response_to_head = false;
  content_length = pos 5;
  close = false;
  transfer_encoding = [];
  trailer = none;
}

-- The code stands twice in the status line.
relayed_text :
    write_response relayed
    ≡ ok (codes "HTTP/1.1 200 200 OK\r\nContent-Length: 5\r\nAccept: */*\r\n\r\nhello")
unfolding write_response proto_at_least Writer.write_header chunked lookup str_eq is_identity
    write_subset trim_space no_body_expected upper itoa64
relayed_text = refl

relayed-IsField : All IsField relayed.header
unfolding all_bytes canonical_header_key canonical_from lower upper
relayed-IsField = ((IsKey-of (codes "Accept") refl refl, refl), tt)

read_response-write_example :
    (text : Bytes) × (q : Received) × (write_response relayed ≡ ok text)
    × (read_response (some (codes "GET")) (text ++ codes "next") ≡ ok q)
    × (q.status ≡ itoa64 (pos 200) ++ (b' ' ∷ reason_of relayed))
    × (q.status_code ≡ pos 200)
    × (q.proto ≡ proto_text 1 1)
    × (q.body.reader ≡ body_reader [] (pos 5) false (codes "hello" ++ codes "next"))
    × ((j : Bytes)
        → is_excluded kept_keys j ≡ false
        → index q.header j
          ≡ line_values j (framing_lines relayed_writer)
            ++ (if is_excluded resp_exclude_header j
                then []
                else map clean (index relayed.header j)))
read_response-write_example =
    read_response-write relayed relayed_writer (codes "get") (codes "GET") (codes "hello")
      (codes "next") 200 refl refl (omega arith) (omega arith) (omega arith)
      (unfold reason_of in (refl, (refl, (refl, (refl, (refl, (refl, tt)))))))
      (unfold new_transfer_writer proto_at_least upper no_body_expected str_eq chunked in refl) refl
      (unfold write_body chunked in refl)
      (unfold upper no_body_expected str_eq in
        record { expected = refl; final = refl; allowed = refl })
      (inr (
        unfold chunked in refl,
        unfold should_send_content_length chunked in refl,
        (5, omega arith, refl),
      ))
      relayed-IsField (unfold lookup in (refl, tt))
