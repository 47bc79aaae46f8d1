-- ===== src/Persist/Client.antt =====
-- The ClientConn of http/persist.go: its operations, and the steps that concurrent calls make.
use go_http.Prelude.{
  ℕ, suc, Bool, true, false, not, List, ◌∷◌, ◌++◌, Option, none, some, ◌≡◌, ◌-◌, if◌then◌else◌,
}
use go_http.Errors.{Error, bad_file, persist_eof, pipeline}
use go_http.Persist.{
  Conn, lookup, assign, delete, Waiting, answering, leaving, enter, leave, end_response, hijack,
}

-- the end of `Write`, behind `cc.writeReq`
unfoldable pub after_writing : ℕ → ℕ → Option Error → Conn → Conn × Option Error
unfolding assign
after_writing id req none s =
    (record s { nwritten = suc s.nwritten; pipereq = assign req id s.pipereq }, none)
after_writing id req (some e) s = (leave id (record s { we = some e }), some e)

-- `ClientConn.Write` of the request at this address; `write_error` is what `cc.writeReq` returns
unfoldable pub write :
    ℕ → (close : Bool) → (write_error : Option Error) → Conn → Conn × Option Error
unfolding after_writing
write req close write_error s =
    let id = s.next in
    let s' = enter s in
    let closing : Conn = if close then record s' { we = some persist_eof } else s' in
    let sent = after_writing id req write_error closing in
    elim s.re [
      | some e ↦ (leave id s', some e)
      | none ↦ elim s.we [
        | some e ↦ (leave id s', some e)
        | none ↦ if not s.c then (leave id s', some bad_file) else sent
      ]
    ]

-- `ClientConn.Pending`
abbrev pub pending : Conn → ℕ
pending s = s.nwritten - s.nread

-- `readUsing` up to `StartResponse`; an error is returned at once
unfoldable pub begin_read : ℕ → Conn → Conn × Option Error
unfolding lookup delete
begin_read req s = elim (lookup req s.pipereq) [
  | none ↦ (record s { pipereq = delete req s.pipereq }, some pipeline)
  | some id ↦
      (record s { pipereq = delete req s.pipereq; waiting = answering id false ∷ s.waiting }, none)
]

-- What `readRes` returns: a response, by its field `Close`, or an error, with or without a response.
pub data Reading : Type 0 where
  got : (close : Bool) → Reading
  failed : (has_response : Bool) → Error → Reading

-- the end of `readUsing`, behind `readRes`: the state, whether a response is returned, and the error
unfoldable pub after_reading : Reading → Conn → Conn × Bool × Option Error
after_reading (failed has_response e) s = (record s { re = some e }, has_response, some e)
after_reading (got close) s =
    let s' : Conn = record s { lastbody = true; nread = suc s.nread } in
    if close
    then (record s' { re = some persist_eof }, true, some persist_eof)
    else (s', true, none)

abbrev body_error : Bool → Option Error → Option Error
body_error lastbody close_error = if lastbody then close_error else none

-- `readUsing` from `StartResponse` on; `close_error` is what `lastbody.Close()` returns
unfoldable pub finish_read : Option Error → Reading → Conn → Conn × Bool × Option Error
unfolding after_reading
finish_read close_error reading s =
    let taken : Conn = record s { lastbody = false } in
    let go = after_reading reading taken in
    elim s.re [
      | some e ↦ (s, false, some e)
      | none ↦
          let behind : Conn × Bool × Option Error = elim (body_error s.lastbody close_error) [
            | some e ↦ (record taken { re = some e }, false, some e)
            | none ↦ go
          ] in
          if not s.r then (s, false, some bad_file) else behind
    ]

-- `ClientConn.Do` up to `StartResponse`: a `Write`, and then a `Read` of its response
unfoldable pub do_request :
    ℕ → (close : Bool) → (write_error : Option Error) → Conn → Conn × Option Error
unfolding write begin_read
do_request req close write_error s =
    let (s', e) = write req close write_error s in
    elim e [ none ↦ begin_read req s' | some x ↦ (s', some x) ]

-- The steps of the calls on a ClientConn, each of which runs up to a wait for its turn; a request may be
-- written again.
pub data Step : Conn → Conn → Type 0 where
  writes :
      {s : Conn}
      → (req : ℕ) → (close : Bool) → (write_error : Option Error)
      → Step s (write req close write_error s).0
  begins : {s : Conn} → (req : ℕ) → Step s (begin_read req s).0
  answers :
      {s : Conn}
      → (before after : List Waiting) → (close : Bool) → (close_error : Option Error)
      → (reading : Reading) → s.waiting ≡ before ++ (answering s.turn close ∷ after)
      → Step s (
          end_response (finish_read close_error reading (record s { waiting = before ++ after })).0)
  leaves :
      {s : Conn}
      → (before after : List Waiting) → s.waiting ≡ before ++ (leaving s.turn ∷ after)
      → Step s (end_response (record s { waiting = before ++ after }))
  hijacks : {s : Conn} → Step s (hijack s).0

-- the states that a number of steps lead to
pub data Leads : Conn → Conn → Type 0 where
  here : {s : Conn} → Leads s s
  more : {s t u : Conn} → Leads s t → Step t u → Leads s u
