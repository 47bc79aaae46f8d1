-- ===== src/Persist.antt =====
-- http/persist.go: the state that ServerConn and ClientConn share, with the `textproto.Pipeline`.
-- `Persist.Server` and `Persist.Client` hold the operations of each.
pub mod Server
pub mod Client
pub mod Pending
pub mod Twice
mod Tests
use go_http.Prelude.{
  ℕ, zero, suc, ◌+◌, ◌-◌, Bool, true, false, List, [], ◌∷◌, ◌++◌, Option, none, some, ◌==◌,
  if◌then◌else◌, codes,
}
use go_http.Errors.{Error, text_error}

-- `pipereq map[*Request]uint`, where a request is known by its address; `assign` keeps each key once
abbrev pub PipeReq : Type 0
PipeReq = List (ℕ × ℕ)

unfoldable pub lookup : ℕ → PipeReq → Option ℕ
lookup req [] = none
lookup req ((r, id) ∷ m) = if r == req then some id else lookup req m

unfoldable pub assign : ℕ → ℕ → PipeReq → PipeReq
assign req id [] = (req, id) ∷ []
assign req id ((r, i) ∷ m) =
    let rest = assign req id m in if r == req then (req, id) ∷ m else (r, i) ∷ rest

unfoldable pub delete : ℕ → PipeReq → PipeReq
delete req [] = []
delete req ((r, i) ∷ m) = let rest = delete req m in if r == req then m else (r, i) ∷ rest

-- A call that waits in `StartResponse(id)`: for the answer to a request, or to leave the pipeline.
pub data Waiting : Type 0 where
  -- `close` is the field of the message
  answering : (id : ℕ) → (close : Bool) → Waiting
  leaving : (id : ℕ) → Waiting

-- The fields of a ServerConn or a ClientConn. `c` and `r` say that the pointer is not nil, and
-- `lastbody` too. The requests' half of the pipeline is `next`, since a call that starts a request
-- ends it too; `turn` is the id whose response may start.
pub record Conn : Type 0 where
  pub c : Bool
  pub r : Bool
  pub re : Option Error
  pub we : Option Error
  pub lastbody : Bool
  pub nread : ℕ
  pub nwritten : ℕ
  pub pipereq : PipeReq
  pub next : ℕ
  pub turn : ℕ
  pub waiting : List Waiting

-- `NewServerConn` and `NewClientConn`
abbrev pub new_conn : Conn
new_conn = record {
  c = true;
  r = true;
  re = none;
  we = none;
  lastbody = false;
  nread = 0;
  nwritten = 0;
  pipereq = [];
  next = 0;
  turn = 0;
  waiting = [];
}

-- `Hijack`
unfoldable pub hijack : Conn → Conn × Bool × Bool
hijack s = (record s { c = false; r = false }, s.c, s.r)

-- `Close`; `close_error` is what closing the connection returns
unfoldable pub close : Option Error → Conn → Conn × Option Error
unfolding hijack
close close_error s = ((hijack s).0, if (hijack s).1 then close_error else none)

-- The next id of the pipeline is taken.
abbrev pub enter : Conn → Conn
enter s = record s { next = suc s.next }

-- The call with this id has returned from the part that reads a request, with no response to come.
abbrev pub leave : ℕ → Conn → Conn
leave id s = record s { waiting = leaving id ∷ s.waiting }

-- `EndResponse(id)`
abbrev pub end_response : Conn → Conn
end_response s = record s { turn = suc s.turn }

abbrev pub pipe_count : Error
pipe_count = text_error (codes "persist server pipe count")
