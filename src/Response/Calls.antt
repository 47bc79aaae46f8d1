-- ===== src/Response/Calls.antt =====
-- http/server.go: what ends a `response`, and the calls that a handler makes of it.
use go_http.Prelude.{
  ℕ, ◌+◌, Bool, true, false, not, ◌&&◌, List, [], ◌∷◌, ◌++◌, Option, none, some, Bytes, codes,
  str_eq, is_empty, length, flatten, ◌==◌, if◌then◌else◌,
}
use go_http.Errors.{Error, short_write}
use go_http.Header
use go_http.Header.{get}
use go_http.Chunked.{crlf, close_chunks}
use go_http.Transfer.{Outcome, ok, err, panics, ◌>>=◌}
use go_http.Transfer.Writer.{minus_one, equal_ℤ}
use go_http.Int.{pos}
use go_http.Requests.{wants_http10_keep_alive}
use go_http.Response.{
  Response, write_header, sniff, write, put, close_body, read_body, request_too_large, body_allowed,
  hijacked_error,
}

-- an HTTP/1.0 connection on which a Content-Length was sent is kept
unfoldable pub restore_keep_alive : Response → Response
restore_keep_alive w =
    if wants_http10_keep_alive w.req
      && (not (is_empty (get w.header (codes "Content-Length")))
          && str_eq (get w.header (codes "Connection")) (codes "keep-alive"))
    then record w { close_after_reply = false }
    else w

-- a body that is shorter than its declared length ends the connection
unfoldable pub close_if_short : Response → Response
close_if_short w =
    if not (equal_ℤ w.content_length minus_one) && not (equal_ℤ w.content_length (pos w.written))
    then record w { close_after_reply = true }
    else w

-- the last chunk and the empty trailer
unfoldable pub end_chunks : Response → Response
end_chunks w = if w.chunking then put (close_chunks ++ crlf) w else w

unfoldable pub ensure_header : Bytes → (ℕ → ℕ) → Response → Response
ensure_header date sizes w = if w.wrote_header then w else write_header date sizes 200 w

-- `response.finishRequest`; it is not called on a hijacked connection. Forms with files are left out.
unfoldable pub finish_request : Bytes → (ℕ → ℕ) → Response → Response
unfolding restore_keep_alive close_if_short end_chunks ensure_header
finish_request date sizes w =
    let u = end_chunks (sniff (ensure_header date sizes (restore_keep_alive w))) in
    close_if_short (if u.close_after_reply then u else close_body sizes u)

-- `response.Flush`; a hijacked connection has no `conn.buf`
unfoldable pub flush : Bytes → (ℕ → ℕ) → Response → Outcome Response
unfolding ensure_header sniff
flush date sizes w = if w.hijacked then panics else ok (sniff (ensure_header date sizes w))

-- `response.Hijack`: the state then, and whether the caller gets the connection
unfoldable pub hijack : Response → Response × Outcome Bool
hijack w = if w.hijacked then (w, err hijacked_error) else (record w { hijacked = true }, ok true)

-- `io.Copy` to the response: one `Write` for each piece of the source, up to an error or a write
-- that reports fewer bytes than it was given
unfoldable pub copy : Bytes → (ℕ → ℕ) → List Bytes → Response → Response × Option Error
unfolding write
copy date sizes [] w = (w, none)
copy date sizes (p ∷ ps) w =
    let (w', o) = write date sizes p w in
    let rest = copy date sizes ps w' in
    elim o [
      | panics ↦ (w', none)
      | err e ↦ (w', some e)
      | ok n ↦ if n == length p then rest else (w', some short_write)
    ]

abbrev pub is_allowed : Outcome Bool → Bool
is_allowed (ok b) = b
is_allowed _ = false

-- the part of `ReadFrom` behind the flush
unfoldable pub read_rest : Bytes → (ℕ → ℕ) → Bool → List Bytes → Response → Response × Option Error
unfolding copy body_allowed
read_rest date sizes direct pieces v =
    let text = flatten pieces in
    let copied = copy date sizes pieces v in
    if not v.chunking && (is_allowed (body_allowed v) && not v.need_sniff) && direct
    then (record v { out = v.out ++ text; written = v.written + length text }, none)
    else copied

-- `response.ReadFrom`; `direct` says that the connection is an `io.ReaderFrom`
unfoldable pub read_from :
    Bytes → (ℕ → ℕ) → Bool → List Bytes → Response → Outcome (Response × Option Error)
unfolding flush read_rest
read_from date sizes direct pieces w = do
  v ← flush date sizes w
  ok (read_rest date sizes direct pieces v)

-- A call that a handler makes of its ResponseWriter, of the header map, or of the request's body.
pub data Call : Type 0 where
  set_field : Bytes → Bytes → Call
  add_field : Bytes → Bytes → Call
  del_field : Bytes → Call
  reply : ℕ → Call
  body : Bytes → Call
  flush_now : Call
  hijack_now : Call
  read_request : ℕ → ℕ → Call
  close_request : Call
  -- `ReadFrom` a source, by its pieces; whether the connection is an `io.ReaderFrom`
  source : Bool → List Bytes → Call
  -- a read beyond the limit of a `maxBytesReader`
  exceed_limit : Call

abbrev pub written_of : Response × Outcome ℕ → Outcome Response
written_of (w, ok n) = ok w
written_of (w, err e) = ok w
written_of (w, panics) = panics

abbrev pub read_of : Outcome (Response × Option Error) → Outcome Response
read_of (ok (w, e)) = ok w
read_of (err e) = err e
read_of panics = panics

-- the response after a call; an error goes to the handler, which may go on
unfoldable pub perform : Bytes → (ℕ → ℕ) → Call → Response → Outcome Response
unfolding write_header write flush hijack read_body close_body request_too_large read_from
perform date sizes (set_field k v) w = ok (record w { header = Header.set w.header k v })
perform date sizes (add_field k v) w = ok (record w { header = Header.add w.header k v })
perform date sizes (del_field k) w = ok (record w { header = Header.del w.header k })
perform date sizes (reply code) w = ok (write_header date sizes code w)
perform date sizes (body text) w = written_of (write date sizes text w)
perform date sizes flush_now w = flush date sizes w
perform date sizes hijack_now w = ok (hijack w).0
perform date sizes (read_request size give) w = ok (read_body size give w).0
perform date sizes close_request w = ok (close_body sizes w)
perform date sizes (source direct pieces) w = read_of (read_from date sizes direct pieces w)
perform date sizes exceed_limit w = ok (request_too_large w)

-- the calls of a handler, in order
unfoldable pub perform_all : Bytes → (ℕ → ℕ) → List Call → Response → Outcome Response
unfolding perform
perform_all date sizes [] w = ok w
perform_all date sizes (c ∷ cs) w = do v ← perform date sizes c w; perform_all date sizes cs v
