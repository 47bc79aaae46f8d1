-- ===== src/Persist/Server.antt =====
-- The ServerConn of http/persist.go: its operations, and the steps that concurrent calls make.
use go_http.Prelude.{
  ℕ, suc, Bool, true, false, not, List, ◌∷◌, ◌++◌, Option, none, some, ◌≡◌, leb, ◌-◌, if◌then◌else◌,
}
use go_http.Errors.{Error, unexpected_eof, bad_file, persist_eof, pipeline}
use go_http.Persist.{
  Conn, lookup, assign, delete, Waiting, answering, leaving, enter, leave, end_response, pipe_count,
  hijack, new_conn,
}

-- What `ReadRequest` returns: a request, by its address and its field `Close`, or an error.
pub data Reading : Type 0 where
  got : (req : ℕ) → (close : Bool) → Reading
  failed : Error → Reading

abbrev is_unexpected_eof : Error → Bool
is_unexpected_eof unexpected_eof = true
is_unexpected_eof _ = false

-- the end of `Read`, behind `ReadRequest`
unfoldable pub after_reading : ℕ → Reading → Conn → Conn × Option ℕ × Option Error
unfolding assign
after_reading id (failed e) s =
    let e' = if is_unexpected_eof e then persist_eof else e in
    (leave id (record s { re = some e' }), none, some e')
after_reading id (got req close) s =
    let s' : Conn = record s {
      lastbody = true;
      nread = suc s.nread;
      pipereq = assign req id s.pipereq;
      re = if close then some persist_eof else s.re;
    } in
    (s', some req, if close then some persist_eof else none)

abbrev body_error : Bool → Option Error → Option Error
body_error lastbody close_error = if lastbody then close_error else none

-- `ServerConn.Read`: `close_error` is what `lastbody.Close()` returns
unfoldable pub read : Option Error → Reading → Conn → Conn × Option ℕ × Option Error
unfolding after_reading
read close_error reading s =
    let id = s.next in
    let s' = enter s in
    let taken : Conn = record s' { lastbody = false } in
    let go = after_reading id reading taken in
    elim s.we [
      | some e ↦ (leave id s', none, some e)
      | none ↦ elim s.re [
        | some e ↦ (leave id s', none, some e)
        | none ↦
            let behind : Conn × Option ℕ × Option Error = elim (body_error s.lastbody close_error) [
              | some e ↦ (leave id (record taken { re = some e }), none, some e)
              | none ↦ go
            ] in
            if not s.r then (leave id s', none, some bad_file) else behind
      ]
    ]

-- `ServerConn.Pending`
abbrev pub pending : Conn → ℕ
pending s = s.nread - s.nwritten

-- `ServerConn.Write` up to `StartResponse`; an error is returned at once
unfoldable pub begin_write : ℕ → Bool → Conn → Conn × Option Error
unfolding lookup delete
begin_write req resp_close s = elim (lookup req s.pipereq) [
  | none ↦ (record s { pipereq = delete req s.pipereq }, some pipeline)
  | some id ↦ (
    record s { pipereq = delete req s.pipereq; waiting = answering id resp_close ∷ s.waiting },
    none,
  )
]

-- the end of `ServerConn.Write`, behind `resp.Write`
abbrev written : Option Error → Conn → Conn × Option Error
written none s = (record s { nwritten = suc s.nwritten }, none)
written (some e) s = (record s { we = some e }, some e)

-- `ServerConn.Write` from `StartResponse` on; `write_error` is what `resp.Write` returns
unfoldable pub finish_write : Bool → Option Error → Conn → Conn × Option Error
finish_write resp_close write_error s =
    let closing : Conn = if resp_close then record s { re = some persist_eof } else s in
    let sent = written write_error closing in
    elim s.we [
      | some e ↦ (s, some e)
      | none ↦
          if not s.c
          then (s, some bad_file)
          else if leb s.nread s.nwritten
          then (s, some pipe_count)
          else sent
    ]

-- The steps of the calls on a ServerConn, each of which runs up to a wait for its turn. `ReadRequest`
-- makes a new request, and a call that waits goes on when its turn has come.
pub data Step : Conn → Conn → Type 0 where
  reads :
      {s : Conn}
      → (close_error : Option Error) → (e : Error) → Step s (read close_error (failed e) s).0
  reads_request :
      {s : Conn}
      → (close_error : Option Error) → (req : ℕ) → (close : Bool) → lookup req s.pipereq ≡ none
      → Step s (read close_error (got req close) s).0
  begins : {s : Conn} → (req : ℕ) → (close : Bool) → Step s (begin_write req close s).0
  answers :
      {s : Conn}
      → (before after : List Waiting) → (close : Bool) → (write_error : Option Error)
      → s.waiting ≡ before ++ (answering s.turn close ∷ after)
      → Step s
          (end_response (finish_write close write_error (record s { waiting = before ++ after })).0)
  leaves :
      {s : Conn}
      → (before after : List Waiting) → s.waiting ≡ before ++ (leaving s.turn ∷ after)
      → Step s (end_response (record s { waiting = before ++ after }))
  hijacks : {s : Conn} → Step s (hijack s).0

pub data Reach : Conn → Type 0 where
  start : Reach new_conn
  more : {s t : Conn} → Reach s → Step s t → Reach t
