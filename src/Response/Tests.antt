-- ===== src/Response/Tests.antt =====
-- The theorems on the `response` of http/server.go at a concrete request and handler.
use go_http.Prelude.{
  ℕ, zero, ◌≤◌, ◌≡◌, ◌⊎◌, refl, true, false, List, [], ◌∷◌, ◌++◌, some, none, suc, Bytes, codes,
  length, All, arith, str_eq, trim_space, has_prefix,
}
use go_http.Int.{pos, pos_part}
use go_http.Errors.{eof}
use go_http.Header
use go_http.Strconv.{atoi64, itoa64}
use go_http.Sniff.{detect_content_type}
use go_http.Chunked.{read_all}
use go_http.Transfer.{proto_at_least, Outcome, ok, ◌>>=◌}
use go_http.Transfer.Body.{limited_reader}
use go_http.Requests.{Url, Request, wants_http10_keep_alive}
use go_http.Response.{Response, new_response, write_header, write}
use go_http.Response.Calls.{Call, perform_all, finish_request}
use go_http.Response.Count.{write_count}
use go_http.Response.Framing.{Ended, write_header-Delimited}
use go_http.Response.Head.{Unsent}
use go_http.Response.Lengths.{Measures, reply_length}
use go_http.Response.Stream.{Opening}
use go_http.Response.Promise.{Keeps, promise, promise_write, promise_all}
use go_http.Response.Wire.{Finished, start, reply_refines, reply_chunked}

abbrev nowhere : Url
nowhere = record { scheme = []; host = []; path = codes "/"; raw_path = codes "/"; raw_query = [] }

-- GET / HTTP/1.1
abbrev get_request : Request
get_request = record {
  method = codes "GET";
  url = nowhere;
  proto = codes "HTTP/1.1";
  proto_major = 1;
  proto_minor = 1;
  header = [];
  body = record {
    reader = limited_reader 0 [];
    trailing = false;
    closing = false;
    closed = false;
    request_body_limit_hit = false;
  };
  content_length = pos 0;
  transfer_encoding = [];
  close = false;
  host = codes "h";
  trailer = none;
}

abbrev asked : Response
asked = new_response get_request []

abbrev no_reads : ℕ → ℕ
no_reads n = 0

abbrev today : Bytes
today = codes "now"

-- a handler that writes, flushes and writes
abbrev greeting : List Call
greeting = Call.body (codes "hel") ∷ Call.flush_now ∷ Call.source false (codes "lo" ∷ []) ∷ []

asked-Unsent : Unsent asked
unfolding new_response
asked-Unsent = record {
  unwritten = refl;
  live = refl;
  unchunked = refl;
  undeclared = refl;
  untyped = refl;
  empty = refl;
  uncounted = refl;
}

-- The whole reply, byte for byte.
reply_out :
    (perform_all today no_reads (Call.reply 200 ∷ greeting) asked >>= λ v.
    ok (finish_request today no_reads v).out)
    ≡ ok (
        codes "HTTP/1.1 200 OK\r\nDate: now\r\nTransfer-Encoding: chunked\r\n"
        ++ (codes "Content-Type: text/plain; charset=utf-8\r\n\r\n"
            ++ codes "3\r\nhel\r\n2\r\nlo\r\n0\r\n\r\n"))
unfolding perform_all finish_request write write_header new_response proto_at_least str_eq
    Header.get Header.lookup wants_http10_keep_alive Header.set Header.assign
    Header.canonical_header_key itoa64 Header.write Header.del Header.delete Header.str_lt
    trim_space detect_content_type has_prefix
reply_out = refl

greeting-Keeps : All Keeps greeting
greeting-Keeps = (tt, (tt, (tt, tt)))

reply_refines_example :
    (v : Response) × (perform_all today no_reads greeting (write_header today no_reads 200 asked)
      ≡ ok v)
    × Finished
        (write_header today no_reads 200 asked).chunking
        (write_header today no_reads 200 asked).need_sniff
        (write_header today no_reads 200 asked).out
        (promise_all
          (write_header today no_reads 200 asked).chunking
          greeting
          (start true (write_header today no_reads 200 asked).content_length)).content
        (finish_request today no_reads v).out
unfolding new_response str_eq
reply_refines_example =
    reply_refines today no_reads 200 asked greeting asked-Unsent refl greeting-Keeps

abbrev ones : ℕ → ℕ × ℕ
ones n = (0, 0)

asked_chunking : (write_header today no_reads 200 asked).chunking ≡ true
unfolding write_header new_response proto_at_least str_eq Header.get Header.lookup
    wants_http10_keep_alive Header.set Header.assign Header.canonical_header_key
asked_chunking = refl

greeted :
    codes "hello"
    ≡ (promise_all true greeting
        (start true (write_header today no_reads 200 asked).content_length)).content
unfolding write_header new_response promise_all promise promise_write proto_at_least str_eq
    Header.get Header.lookup wants_http10_keep_alive Header.set Header.assign
    Header.canonical_header_key
greeted = refl

reply_chunked_example :
    (v : Response) × (opening : Bytes) × (coding : Bytes) × (perform_all today no_reads greeting
        (write_header today no_reads 200 asked)
      ≡ ok v)
    × Opening (codes "hello") (write_header today no_reads 200 asked).need_sniff opening
    × ((finish_request today no_reads v).out
        ≡ (write_header today no_reads 200 asked).out ++ (opening ++ coding))
    × (read_all 6 ones (record { wire = coding ++ codes "GET"; n = 0; err = none })
        ≡ (record { wire = codes "GET"; n = 0; err = some eof }, codes "hello"))
unfolding new_response str_eq
reply_chunked_example =
    reply_chunked today no_reads 200 asked greeting (codes "hello") asked-Unsent refl greeting-Keeps
      asked_chunking greeted (omega arith) ones (codes "GET")

-- the same with a declared length
abbrev sized : Response
unfolding new_response
sized = record (new_response get_request []) {
  header = (codes "Content-Length", codes "5" ∷ []) ∷ [];
}

sized-Unsent : Unsent sized
unfolding new_response
sized-Unsent = record {
  unwritten = refl;
  live = refl;
  unchunked = refl;
  undeclared = refl;
  untyped = refl;
  empty = refl;
  uncounted = refl;
}

greeting-Measures : All Measures greeting
greeting-Measures = (tt, (tt, (refl, tt)))

reply_length_example :
    (v : Response) × (opening : Bytes) × (body : Bytes) × (perform_all today no_reads greeting
        (write_header today no_reads 200 sized)
      ≡ ok v)
    × Opening body (write_header today no_reads 200 sized).need_sniff opening
    × ((finish_request today no_reads v).out
        ≡ (write_header today no_reads 200 sized).out ++ (opening ++ body))
    × (length body ≤ pos_part (write_header today no_reads 200 sized).content_length)
    × (((finish_request today no_reads v).close_after_reply ≡ true)
        ⊎ ((write_header today no_reads 200 sized).content_length ≡ pos (length body)))
unfolding write_header new_response atoi64 Header.delete Header.del proto_at_least str_eq Header.get
    Header.lookup wants_http10_keep_alive Header.set Header.assign Header.canonical_header_key
reply_length_example =
    reply_length today no_reads 200 sized greeting sized-Unsent refl greeting-Measures refl refl

abbrev writing : List Call
writing = Call.body (codes "hello") ∷ []

-- the response behind the handler's calls
abbrev or_asked : Outcome Response → Response
or_asked (ok v) = v
or_asked _ = asked

abbrev sized_done : Response
sized_done = or_asked (perform_all today no_reads writing (write_header today no_reads 200 sized))

write_header-Delimited_example :
    Ended
      (write_header today no_reads 200 sized)
      (finish_request today no_reads sized_done).close_after_reply
unfolding write_header new_response atoi64 Header.delete Header.del proto_at_least str_eq Header.get
    Header.lookup wants_http10_keep_alive Header.set Header.assign Header.canonical_header_key
write_header-Delimited_example =
    write_header-Delimited today no_reads 200 sized sized_done writing sized-Unsent refl refl
      (λ e. cc) (tt, tt) (unfold perform_all in refl)

abbrev repeat : ℕ → ℕ → Bytes
repeat zero b = []
repeat (suc n) b = b ∷ repeat n b

-- A response that has 511 bytes in its sniff buffer.
abbrev nearly_full : Response
unfolding new_response
nearly_full = record (new_response get_request []) {
  wrote_header = true;
  status = 200;
  need_sniff = true;
  sniffed = repeat 511 b'x';
}

write_count_example : (write today no_reads (codes "ab") nearly_full).1 ≡ ok 1
unfolding new_response str_eq
write_count_example = write_count today no_reads (codes "ab") nearly_full refl refl refl refl refl
