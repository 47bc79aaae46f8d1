-- ===== src/Serve.antt =====
-- http/server.go: the loop of `conn.serve`. What `conn.readRequest` gets from the bytes to come is an
-- argument, which stands for `ReadRequest` behind the limit on the header's size; a handler is the
-- list of the calls that it makes for a request, and a panic ends the connection.
pub mod Order
mod Tests
use go_http.Prelude.{
  ℕ, zero, suc, Bool, true, false, not, List, [], ◌∷◌, ◌++◌, Bytes, codes, is_empty, if◌then◌else◌,
}
use go_http.Errors.{Error, unexpected_eof}
use go_http.Header
use go_http.Header.{get, del}
use go_http.Transfer.{Outcome, ok, err, panics}
use go_http.Transfer.Writer.{is_zero}
use go_http.Transfer.Body.{wire_of}
use go_http.Requests.Reading.{read_request}
use go_http.Requests.{Url, Request, at_least, expects_continue}
use go_http.Response.{Response, new_response, write_header}
use go_http.Response.Calls.{Call, perform_all, finish_request}

-- What `readRequest` returns: a request, `errTooLarge`, an error that is not answered
-- (`io.ErrUnexpectedEOF` or a timeout), or another error.
pub data Next : Type 0 where
  arrived : Request → Next
  too_large : Next
  unanswered : Next
  bad_request : Next

-- How a turn of the loop ends: the connection is closed, it has been hijacked, the handler panicked,
-- or the next request is read from the bytes behind this one's body. Each comes with the wire.
pub data Turn : Type 0 where
  closed : Bytes → Turn
  taken : Bytes → Turn
  panicked : Turn
  goes_on : Bytes → Bytes → Turn

-- the reply to an expectation that is not met: it is finished, and the loop left
unfoldable pub refuse : Bytes → (ℕ → ℕ) → ℕ → Response → Turn
unfolding write_header finish_request
refuse date sizes code w =
    let v : Response = record w {
      header = Header.set w.header (codes "Connection") (codes "close");
    } in
    closed (finish_request date sizes (write_header date sizes code v)).out

-- the end of the turn, once the handler has returned
unfoldable pub end_turn : Bytes → (ℕ → ℕ) → Response → Turn
unfolding finish_request
end_turn date sizes v =
    let u = finish_request date sizes v in
    if v.hijacked
    then taken v.out
    else if u.close_after_reply
    then closed u.out
    else goes_on u.out (wire_of u.req.body.reader)

-- the handler's turn
unfoldable pub handle : Bytes → (ℕ → ℕ) → (Request → List Call) → Response → Turn
unfolding perform_all end_turn
handle date sizes handler w = elim (perform_all date sizes (handler w.req) w) [
  | ok v ↦ end_turn date sizes v
  | err e ↦ panicked
  | panics ↦ panicked
]

-- the part with `Expect: 100-continue`
unfoldable pub serve_continue : Bytes → (ℕ → ℕ) → (Request → List Call) → Response → Turn
unfolding refuse handle
serve_continue date sizes handler w =
    let v : Response = record w { expecter = at_least w.req 1 1 } in
    if is_zero w.req.content_length
    then refuse date sizes 400 v
    else handle date sizes handler
        (record v { req = record v.req { header = del v.req.header (codes "Expect") } })

-- one turn of the loop, for a request that has arrived
unfoldable pub serve_request : Bytes → (ℕ → ℕ) → (Request → List Call) → Request → Bytes → Turn
unfolding serve_continue new_response refuse handle
serve_request date sizes handler req out =
    let w = new_response req out in
    if expects_continue req
    then serve_continue date sizes handler w
    else if not (is_empty (get req.header (codes "Expect")))
    then refuse date sizes 417 w
    else handle date sizes handler w

-- `fmt.Fprintf(c.rwc, "HTTP/1.1 %s\r\n\r\n", msg)`
abbrev pub error_reply : Bytes → Bytes
error_reply msg = codes "HTTP/1.1 " ++ (msg ++ codes "\r\n\r\n")

-- The loop of `conn.serve`, on fuel: from the bytes to come and what is on the wire, the wire at the
-- end. The only panic of the calls is a flush behind a hijack, and what is written by then is left out.
unfoldable pub serve :
    ℕ → Bytes → (ℕ → ℕ) → (Bytes → Next) → (Request → List Call) → Bytes → Bytes → Bytes
unfolding serve_request
serve zero date sizes read_next handler wire out = out
serve (suc f) date sizes read_next handler wire out = elim (read_next wire) [
  | too_large ↦ out ++ error_reply (codes "413 Request Entity Too Large")
  | unanswered ↦ out
  | bad_request ↦ out ++ error_reply (codes "400 Bad Request")
  | arrived req ↦ elim (serve_request date sizes handler req out) [
    | closed wire' ↦ wire'
    | taken wire' ↦ wire'
    | panicked ↦ out
    | goes_on wire' rest ↦ serve f date sizes read_next handler rest wire'
  ]
]

abbrev is_unexpected_eof : Error → Bool
is_unexpected_eof unexpected_eof = true
is_unexpected_eof _ = false

-- `ReadRequest` as what `readRequest` gets, with no limit on the header
unfoldable pub next_of : (Bytes → Outcome Url) → Bytes → Next
unfolding read_request
next_of parse_url wire = elim (read_request parse_url wire) [
  | ok r ↦ arrived r
  | panics ↦ unanswered
  | err e ↦ if is_unexpected_eof e then unanswered else bad_request
]
