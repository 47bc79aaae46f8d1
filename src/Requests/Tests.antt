-- ===== src/Requests/Tests.antt =====
-- The round trip of a request at a concrete one.
use go_http.Prelude.{
  arith, ◌≡◌, ◌++◌, refl, inr, false, [], ◌∷◌, some, none, Bytes, codes, All, map, if◌then◌else◌,
  all_bytes, lower, upper, str_eq, is_white, trim_space,
}
use go_http.Int.{pos}
use go_http.Header.{index, lookup, is_excluded, write_subset, canonical_header_key, canonical_from}
use go_http.Transfer.Writer
use go_http.Transfer.{chunked, is_identity, Outcome, ok, proto_at_least}
use go_http.Transfer.Writer.{Message, TransferWriter, request, new_transfer_writer, write_body}
use go_http.Mime.Fields.{IsKey-of}
use go_http.Mime.Headers.{IsField, clean}
use go_http.Mime.Values.{line_values}
use go_http.Requests.{Url}
use go_http.Requests.Reading.{read_request}
use go_http.Requests.Writing.{Outgoing, write_request, write_exclude_header, url_text}
use go_http.Requests.Lines.{agent_lines, framing_lines}
use go_http.Requests.Finished.{read_keys}
use go_http.Transfer.Reader.{body_reader}
use go_http.Requests.{Request}
use go_http.Requests.RoundTrip.{read_request-write}

abbrev path_url : Bytes → Url
path_url p = record { scheme = []; host = []; path = p; raw_path = p; raw_query = [] }

-- a parser that takes every text for a path
abbrev parse_path : Bytes → Outcome Url
parse_path p = ok (path_url p)

abbrev path_of : Url → Bytes
path_of u = u.path

abbrev get_index : Outgoing
get_index = record {
  message = record {
    method = codes "GET";
    body = none;
    content_length = pos 0;
    close = false;
    transfer_encoding = [];
    trailer = none;
    proto_major = 1;
    proto_minor = 1;
  };
  url = some (path_url (codes "/index"));
  host = codes "example";
  header = (codes "Accept", codes "*/*" ∷ []) ∷ [];
}

abbrev get_writer : TransferWriter
get_writer = record {
  method = codes "GET";
  body = none;
  response_to_head = false;
  content_length = pos 0;
  close = false;
  transfer_encoding = [];
  trailer = none;
}

request_text :
    write_request path_of false get_index
    ≡ ok (
        codes
          "GET /index HTTP/1.1\r\nHost: example\r\nUser-Agent: Go http package\r\nAccept: */*\r\n\r\n")
unfolding write_request proto_at_least Writer.write_header chunked lookup str_eq is_identity
    write_subset trim_space
request_text = refl

get_index-IsField : All IsField get_index.header
unfolding all_bytes canonical_header_key canonical_from lower upper
get_index-IsField = ((IsKey-of (codes "Accept") refl refl, refl), tt)

read_request-write_example :
    (text : Bytes) × (q : Request) × (write_request path_of false get_index ≡ ok text)
    × (read_request parse_path (text ++ codes "next") ≡ ok q)
    × (q.method ≡ codes "GET")
    × (q.url ≡ path_url (codes "/index"))
    × (q.host ≡ codes "example")
    × (q.body.reader ≡ body_reader [] (pos 0) false (codes "next"))
    × ((j : Bytes)
        → is_excluded read_keys j ≡ false
        → index q.header j
          ≡ line_values j (
              (codes "Host", codes "example")
              ∷ (agent_lines get_index.header ++ framing_lines get_writer))
            ++ (if is_excluded write_exclude_header j
                then []
                else map clean (index get_index.header j)))
unfolding url_text lookup is_white chunked str_eq
read_request-write_example =
    read_request-write path_of parse_path false get_index (path_url (codes "/index"))
      (path_url (codes "/index")) get_writer b'G' (codes "ET") [] (codes "next") refl refl
      (refl, (refl, (refl, tt))) (refl, (refl, (refl, tt)))
      (refl, (refl, (refl, (refl, (refl, (refl, tt))))))
      (refl, (refl, (refl, (refl, (refl, (refl, tt)))))) refl
      (unfold new_transfer_writer proto_at_least in refl) refl (inr (refl, (0, omega arith, refl)))
      (unfold write_body in refl) (inr (refl, refl))
      (refl, (refl, (refl, (refl, (refl, (refl, (refl, tt))))))) (inr (refl, refl))
      (
        refl,
        (
          refl,
          (
            refl,
            (
              refl,
              (
                refl,
                (refl, (refl, (refl, (refl, (refl, (refl, (refl, (refl, (refl, (refl, tt)))))))))),
              ),
            ),
          ),
        ),
      )
      get_index-IsField (unfold lookup in (refl, tt))
