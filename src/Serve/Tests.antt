-- ===== src/Serve/Tests.antt =====
-- The loop of a connection at two requests in one go.
use go_http.Prelude.{ℕ, ◌≡◌, refl, false, ◌++◌, [], ◌∷◌, Bytes, codes, List, none, All, str_eq}
use go_http.Int.{pos}
use go_http.Header.{get, lookup}
use go_http.Transfer.{Outcome, ok}
use go_http.Transfer.Body.{limited_reader}
use go_http.Requests.{Url, Request, expects_continue}
use go_http.Response.{Response, new_response}
use go_http.Response.Calls.{Call}
use go_http.Serve.{serve, next_of}
use go_http.Serve.Order.{edit_all}

abbrev path_url : Bytes → Url
path_url p = record { scheme = []; host = []; path = p; raw_path = p; raw_query = [] }

abbrev parse_path : Bytes → Outcome Url
parse_path p = ok (path_url p)

-- a handler that answers with the path
abbrev echo : Request → List Call
echo r = Call.set_field (codes "Content-Type") (codes "text/plain") ∷ Call.body r.url.path ∷ []

abbrev no_reads : ℕ → ℕ
no_reads n = 0

abbrev two_requests : Bytes
two_requests =
    codes "GET /a HTTP/1.1\r\nHost: h\r\n\r\n"
    ++ codes "GET /b HTTP/1.1\r\nHost: h\r\nConnection: close\r\n\r\n"

abbrev reply_to : Bytes → Bytes
reply_to path =
    codes "HTTP/1.1 200 OK\r\nContent-Type: text/plain\r\nDate: now\r\n"
    ++ (codes "Transfer-Encoding: chunked\r\n\r\n2\r\n" ++ (path ++ codes "\r\n0\r\n\r\n"))

-- Both are answered, one behind the other.
two_replies :
    serve 3 (codes "now") no_reads (next_of parse_path) echo two_requests []
    ≡ reply_to (codes "/a") ++ reply_to (codes "/b")
unfolding serve next_of str_eq go_http.Mime.read_mime_header lookup go_http.Header.del
    go_http.Header.delete go_http.Header.assign go_http.Header.canonical_header_key
    go_http.Transfer.no_body_expected go_http.Transfer.chunked go_http.Prelude.trim_space get
    expects_continue go_http.Transfer.proto_at_least go_http.Requests.wants_http10_keep_alive
    go_http.Header.set go_http.Transfer.Body.close go_http.Strconv.itoa64 go_http.Header.write
    go_http.Header.str_lt
two_replies = refl

abbrev asked : Request
asked = record {
  method = codes "GET";
  url = path_url (codes "/a");
  proto = codes "HTTP/1.1";
  proto_major = 1;
  proto_minor = 1;
  header = [];
  body = record {
    reader = limited_reader 0 [];
    trailing = false;
    closing = false;
    closed = false;
    request_body_limit_hit = false;
  };
  content_length = pos 0;
  transfer_encoding = [];
  close = false;
  host = [];
  trailer = none;
}

-- a handler that sets the type, replies and writes the path
abbrev typed : Request → List Call
typed r =
    Call.set_field (codes "Content-Type") (codes "text/plain")
    ∷ Call.reply 200
    ∷ Call.body r.url.path
    ∷ []

abbrev opened : Response
opened = record (new_response asked (codes "x")) {
  header = edit_all (Call.set_field (codes "Content-Type") (codes "text/plain") ∷ []) [];
}

abbrev rest : List Call
rest = Call.body (codes "/a") ∷ []
