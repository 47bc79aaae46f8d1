-- ===== src/Response.antt =====
-- http/server.go: the `response` that a handler writes, with the parts of its `conn` that it uses.
-- `out` is all that has been written to `conn.buf`, flushed or not, in order; the writer takes it
-- all. `date` is the clock's text, and `sizes` says how much comes in, less one, for each read of
-- the request's body.
pub mod Calls
pub mod Stream
pub mod Accepted
pub mod Promise
pub mod Written
pub mod Copied
pub mod Performed
pub mod Head
pub mod Closing
pub mod Framing
pub mod Wire
pub mod Lengths
pub mod Count
mod Tests
use go_http.Prelude.{
  ℕ, zero, suc, ◌+◌, ◌-◌, min, Bool, true, false, not, ◌&&◌, ◌||◌, List, [], ◌∷◌, ◌++◌, Option,
  none, some, Bytes, codes, str_eq, is_empty, length, take, drop, ◌==◌, if◌then◌else◌,
}
use go_http.Int.{ℤ, pos, negsuc, ltb_ℤ}
use go_http.Strconv.{itoa64, atoi64, uitob64}
use go_http.Errors.{Error, text_error}
use go_http.Header
use go_http.Header.{Header, lookup, get, del}
use go_http.Status.{status_texts, text_in}
use go_http.Sniff.{sniff_len, detect_content_type}
use go_http.Chunked.{crlf}
use go_http.Transfer.{Outcome, ok, err, panics}
use go_http.Transfer.Writer.{is_none, is_zero, minus_one, equal_ℤ}
use go_http.Transfer.Body
use go_http.Transfer.Body.{Body, wire_of}
use go_http.Requests.{Request, at_least, wants_http10_keep_alive}

-- `response`; `expecter` says that the request's body is an `expectContinueReader`, `reader_closed`
-- is that reader's `closed`, and the last three fields are the connection's: `conn.hijacked`, the
-- filled part of `conn.body`, and what has been written to `conn.buf`.
pub record Response : Type 0 where
  pub req : Request
  pub expecter : Bool
  pub reader_closed : Bool
  pub chunking : Bool
  pub wrote_header : Bool
  pub wrote_continue : Bool
  pub header : Header
  pub written : ℕ
  pub content_length : ℤ
  pub status : ℕ
  pub need_sniff : Bool
  pub close_after_reply : Bool
  pub request_body_limit_hit : Bool
  pub hijacked : Bool
  pub sniffed : Bytes
  pub out : Bytes

-- the response that `conn.readRequest` makes for a request, on a connection that has `out` behind it
unfoldable pub new_response : Request → Bytes → Response
new_response req out = record {
  req = req;
  expecter = false;
  reader_closed = false;
  chunking = false;
  wrote_header = false;
  wrote_continue = false;
  header = [];
  written = 0;
  content_length = minus_one;
  status = 0;
  need_sniff = false;
  close_after_reply = false;
  request_body_limit_hit = false;
  hijacked = false;
  sniffed = [];
  out = out;
}

-- `ErrHijacked`, `ErrBodyNotAllowed`, `ErrContentLength`
abbrev pub hijacked_error : Error
hijacked_error = text_error (codes "Conn has been hijacked")

abbrev pub body_not_allowed : Error
body_not_allowed = text_error (codes "http: response status code does not allow body")

abbrev pub content_length_error : Error
content_length_error = text_error (codes "Conn.Write wrote more than the declared Content-Length")

-- `response.requestTooLarge`
unfoldable pub request_too_large : Response → Response
request_too_large w = record w {
  close_after_reply = true;
  request_body_limit_hit = true;
  header =
      if w.wrote_header then w.header else Header.set w.header (codes "Connection") (codes "close");
}

abbrev pub put : Bytes → Response → Response
put text w = record w { out = w.out ++ text }

-- `w.req.Body.Close()`; one read for each byte, and two more, end the body
unfoldable pub close_body : (ℕ → ℕ) → Response → Response
close_body sizes w =
    let fuel = suc (suc (length (wire_of w.req.body.reader))) in
    record w {
      req = record w.req { body = (Body.close fuel sizes w.req.body).0 };
      reader_closed = w.expecter || w.reader_closed;
    }

-- `expectContinueReader.Read`, or the plain body's
unfoldable pub read_body : ℕ → ℕ → Response → Response × Bytes × Option Error
read_body size give w =
    let (body', got, e) = Body.read w.req.body size give in
    let continued : Response =
      if w.expecter && (not w.wrote_continue && not w.hijacked)
      then record w { wrote_continue = true; out = w.out ++ codes "HTTP/1.1 100 Continue\r\n\r\n" }
      else w in
    if w.expecter && w.reader_closed
    then (w, [], some (text_error (codes "http: Read after Close on request Body")))
    else (record continued { req = record w.req { body = body' } }, got, e)

-- The request's body is consumed before the reply.
unfoldable pub consume_body : (ℕ → ℕ) → Response → Response
consume_body sizes w =
    if not (is_zero w.req.content_length) && not w.request_body_limit_hit
    then (if not w.expecter || w.wrote_continue then close_body sizes w else w)
    else w

-- the loop over the fields that a reply with `StatusNotModified` must not have
unfoldable pub drop_fields : List Bytes → Header → Header
drop_fields [] h = h
drop_fields (k ∷ ks) h = drop_fields ks (if is_empty (get h k) then h else del h k)

abbrev pub body_fields : List Bytes
body_fields = codes "Content-Type" ∷ codes "Content-Length" ∷ codes "Transfer-Encoding" ∷ []

-- `StatusNotModified`, or the test for a content type
unfoldable pub content_fields : ℕ → Response → Response
unfolding drop_fields
content_fields code w =
    if code == 304
    then record w { header = drop_fields body_fields w.header }
    else record w { need_sniff = w.need_sniff || is_empty (get w.header (codes "Content-Type")) }

unfoldable pub add_date : Bytes → Header → Header
add_date date h = if is_none (lookup (codes "Date") h) then Header.set h (codes "Date") date else h

-- the explicit and valid Content-Length; an invalid one is dropped
unfoldable pub explicit_length : Header → Header × Option ℤ
explicit_length h =
    let text = get h (codes "Content-Length") in
    if is_empty text
    then (h, none)
    else elim (atoi64 text) [ none ↦ (del h (codes "Content-Length"), none) | some n ↦ (h, some n) ]

-- a Content-Length beside a Transfer-Encoding other than identity is ignored
unfoldable pub agreed_length : Header × Option ℤ → Header × Option ℤ
agreed_length (h, none) = (h, none)
agreed_length (h, some n) =
    let te = get h (codes "Transfer-Encoding") in
    if not (is_empty te) && not (str_eq te (codes "identity"))
    then (del h (codes "Content-Length"), none)
    else (h, some n)

abbrev pub is_head : Request → Bool
is_head r = str_eq r.method (codes "HEAD")

-- how the body of the reply is delimited
unfoldable pub frame : Option ℤ → Response → Response
frame (some n) w = record w {
  content_length = n;
  header = del w.header (codes "Transfer-Encoding");
}
frame none w =
    if at_least w.req 1 1
    then record w {
      chunking = true;
      header = Header.set w.header (codes "Transfer-Encoding") (codes "chunked");
    }
    else record w { close_after_reply = true; header = del w.header (codes "Transfer-Encoding") }

abbrev pub is_some {ℓ} : {A : Type ℓ} → Option A → Bool
is_some o = not (is_none o)

-- whether an HTTP/1.0 connection is kept
unfoldable pub keep_alive : Bool → Response → Response
keep_alive has_length w =
    if wants_http10_keep_alive w.req && (is_head w.req || has_length)
    then (if is_none (lookup (codes "Connection") w.header)
        then record w { header = Header.set w.header (codes "Connection") (codes "keep-alive") }
        else w)
    else if not (at_least w.req 1 1)
    then record w { close_after_reply = true }
    else w

unfoldable pub close_if_asked : Response → Response
close_if_asked w =
    if str_eq (get w.header (codes "Connection")) (codes "close")
    then record w { close_after_reply = true }
    else w

unfoldable pub drop_length : Response → Response
drop_length w =
    if w.chunking then record w { header = del w.header (codes "Content-Length") } else w

abbrev pub or_text : Option Bytes → Bytes → Bytes
or_text (some t) d = t
or_text none d = d

unfoldable pub status_line : ℕ → Request → Bytes
unfolding text_in
status_line code r =
    let codestring = itoa64 (pos code) in
    (if at_least r 1 1 then codes "HTTP/1.1" else codes "HTTP/1.0")
    ++ (b' '
        ∷ (codestring
            ++ (b' '
                ∷ (or_text (text_in code status_texts) (codes "status code " ++ codestring)
                    ++ crlf))))

-- The status line and the header; the header is left open where the body is to be sniffed.
unfoldable pub write_head : ℕ → Response → Response
unfolding status_line
write_head code w =
    if at_least w.req 1 0
    then put
        (status_line code w.req ++ (Header.write w.header ++ (if w.need_sniff then [] else crlf))) w
    else w

unfoldable pub choose_frame : ℕ → Option ℤ → Response → Response
unfolding frame
choose_frame code n w = if is_head w.req || code == 304 then w else frame n w

-- the framing, from the header with the date
unfoldable pub framed : ℕ → Response → Response
unfolding choose_frame agreed_length explicit_length keep_alive close_if_asked drop_length
framed code w =
    let (h, n) = agreed_length (explicit_length w.header) in
    let u = choose_frame code n (record w { header = h }) in
    drop_length (close_if_asked (keep_alive (is_some n) u))

-- `response.WriteHeader`
unfoldable pub write_header : Bytes → (ℕ → ℕ) → ℕ → Response → Response
unfolding consume_body content_fields add_date framed write_head
write_header date sizes code w =
    let v = consume_body sizes w in
    let u = content_fields code (record v { wrote_header = true; status = code }) in
    let t = framed code (record u { header = add_date date u.header }) in
    if w.hijacked then w else if w.wrote_header then w else write_head code t

-- `%x\r\n`, the data and the line's end
unfoldable pub size_line : Bytes → Bytes
size_line data' = uitob64 (length data') 16 ++ crlf

-- a block of the body, in a chunk of its own where the reply is chunked
unfoldable pub block : Bool → Bytes → Bytes
unfolding size_line
block chunking text = if chunking then size_line text ++ (text ++ crlf) else text

abbrev pub sniff_line : Bytes → Bytes
sniff_line text = codes "Content-Type: " ++ (detect_content_type text ++ (crlf ++ crlf))

-- `response.sniff`
unfoldable pub sniff : Response → Response
unfolding block
sniff w =
    let text = w.sniffed in
    let opened = sniff_line text in
    if not w.need_sniff then w else record w {
      need_sniff = false;
      out = w.out ++ (if is_empty text then opened else opened ++ block w.chunking text);
    }

-- `response.bodyAllowed`
unfoldable pub body_allowed : Response → Outcome Bool
body_allowed w =
    if not w.wrote_header then panics else ok (not (w.status == 304) && not (is_head w.req))

-- `w.contentLength != -1 && w.written > w.contentLength`
abbrev pub exceeds : ℤ → ℕ → Bool
exceeds content_length written =
    not (equal_ℤ content_length minus_one) && ltb_ℤ content_length (pos written)

-- The end of `Write`, with the count of this write: the inner `m := …` hides the outer `m`, which
-- stays 0, so the bytes that went to the sniff buffer are not counted.
unfoldable pub write_block : Bytes → Response → Response × Outcome ℕ
unfolding block
write_block text w = (put (block w.chunking text) w, ok (length text))

-- the part of `Write` behind the checks
unfoldable pub write_text : Bytes → Response → Response × Outcome ℕ
unfolding write_block sniff
write_text text w =
    let m = min (sniff_len - length w.sniffed) (length text) in
    let kept : Response = record w { sniffed = w.sniffed ++ take m text } in
    let rest = drop m text in
    if w.need_sniff
    then (if is_empty rest then (kept, ok m) else write_block rest (sniff kept))
    else write_block text w

-- the part of `Write` with the header written
unfoldable pub write_checked : Bytes → Response → Response × Outcome ℕ
unfolding write_text
write_checked text w =
    let counted : Response = record w { written = w.written + length text } in
    if is_empty text then (w, ok 0) else elim (body_allowed w) [
      | panics ↦ (w, panics)
      | err e ↦ (w, err e)
      | ok allowed ↦
          if not allowed
          then (w, err body_not_allowed)
          else if exceeds w.content_length counted.written
          then (counted, err content_length_error)
          else write_text text counted
    ]

-- `response.Write`
unfoldable pub write : Bytes → (ℕ → ℕ) → Bytes → Response → Response × Outcome ℕ
unfolding write_checked write_header body_allowed
write date sizes text w =
    if w.hijacked
    then (w, err hijacked_error)
    else write_checked text (write_header date sizes 200 w)
