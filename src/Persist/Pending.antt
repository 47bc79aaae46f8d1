-- ===== src/Persist/Pending.antt =====
-- The counts of a ServerConn (http/persist.go).
use go_http.Prelude.{
  ℕ, suc, ◌+◌, ◌≤◌, ◌<◌, Bool, true, List, [], ◌∷◌, ◌++◌, Option, none, some, ◌≡◌, refl, ap, arith,
  length, Option-cases, inl, inr,
}
use go_http.Errors.{Error}
use go_http.Persist.{
  Conn, PipeReq, lookup, assign, delete, Waiting, answering, leaving, end_response, hijack,
}
use go_http.Persist.Server.{
  Reading, got, failed, after_reading, read, begin_write, finish_write, pending, Step, reads,
  reads_request, begins, answers, leaves, hijacks, Reach, start, more,
}

-- how many calls wait to answer
abbrev pub answer_count : List Waiting → ℕ
answer_count [] = 0
answer_count (answering id close ∷ ws) = suc (answer_count ws)
answer_count (leaving id ∷ ws) = answer_count ws

abbrev pub Counted : Conn → Type 0
Counted s =
    (s.turn + length s.pipereq + length s.waiting ≡ s.next)
    × (s.nwritten + length s.pipereq + answer_count s.waiting ≤ s.nread)

length-assign :
    (req id : ℕ) (m : PipeReq) → lookup req m ≡ none → length (assign req id m) ≡ suc (length m)
unfolding lookup assign
length-assign req id [] e = omega arith
length-assign req id ((r, i) ∷ m) e = ground (arith, length-assign req id m)

length-delete :
    (req id : ℕ) (m : PipeReq) → lookup req m ≡ some id → suc (length (delete req m)) ≡ length m
unfolding lookup delete
length-delete req id [] e = absurd (ground arith)
length-delete req id ((r, i) ∷ m) e = ground (arith, length-delete req id m)

delete-none : (req : ℕ) (m : PipeReq) → lookup req m ≡ none → delete req m ≡ m
unfolding lookup delete
delete-none req [] e = refl
delete-none req ((r, i) ∷ m) e = ground (arith, delete-none req m)

remove-waiting :
    (w : Waiting) (before after : List Waiting)
    → (length (before ++ (w ∷ after)) ≡ suc (length (before ++ after)))
      × (answer_count (before ++ (w ∷ after))
          ≡ answer_count (w ∷ []) + answer_count (before ++ after))
remove-waiting (answering id close) [] after = (refl, omega arith)
remove-waiting (leaving id) [] after = (refl, omega arith)
remove-waiting w (answering id close ∷ before) after =
    let (a, b) = remove-waiting w before after in (omega (arith, a), omega (arith, b))
remove-waiting w (leaving id ∷ before) after =
    let (a, b) = remove-waiting w before after in (omega (arith, a), omega (arith, b))

abbrev Fresh : Reading → Conn → Type 0
Fresh (got req close) s = lookup req s.pipereq ≡ none
Fresh (failed e) s = Unit

read-Counted :
    (close_error : Option Error) (reading : Reading) (s : Conn)
    → Fresh reading s
    → Counted s
    → Counted (read close_error reading s).0
unfolding read after_reading
read-Counted close_error (failed e) s fresh h = ground arith
read-Counted close_error (got req close) s fresh h =
    ground (arith, length-assign req s.next s.pipereq fresh)

begin_write-Counted :
    (req : ℕ) (close : Bool) (s : Conn) → Counted s → Counted (begin_write req close s).0
unfolding begin_write
begin_write-Counted req close s h = elim (Option-cases (lookup req s.pipereq)) [
  | inl e ↦ rw (begin_write, e, delete-none req s.pipereq e) h
  | inr (id, e) ↦
      let shorter = length-delete req id s.pipereq e in
      rw (begin_write, e) (omega (arith, shorter, h.0), omega (arith, shorter, h.1))
]

-- `finish_write` for a call that waited: the counts with that call still in them
finish_write-Counted :
    (close : Bool) (write_error : Option Error) (s : Conn)
    → s.turn + length s.pipereq + suc (length s.waiting) ≡ s.next
    → s.nwritten + length s.pipereq + suc (answer_count s.waiting) ≤ s.nread
    → Counted (end_response (finish_write close write_error s).0)
unfolding finish_write
finish_write-Counted close none s h k = ground arith
finish_write-Counted close (some e) s h k = ground arith

step-Counted : (s t : Conn) → Step s t → Counted s → Counted t
step-Counted s _ (reads close_error e) h = read-Counted close_error (failed e) s tt h
step-Counted s _ (reads_request close_error req close fresh) h =
    read-Counted close_error (got req close) s fresh h
step-Counted s _ (begins req close) h = begin_write-Counted req close s h
step-Counted s _ (answers before after close write_error e) h =
    let (a, b) = remove-waiting (answering s.turn close) before after in
    finish_write-Counted close write_error (record s { waiting = before ++ after })
      (omega (arith, a, h.0, ap length e)) (omega (arith, b, h.1, ap answer_count e))
step-Counted s _ (leaves before after e) h =
    let (a, b) = remove-waiting (leaving s.turn) before after in
    (omega (arith, a, h.0, ap length e), omega (arith, b, h.1, ap answer_count e))
step-Counted s _ hijacks h = unfold hijack in h

-- In every state that the calls on a ServerConn lead to, the ids of the pipeline from the current
-- turn on are as many as the requests that can be answered and the calls that wait, and the
-- requests read are at least as many as those that have been answered, can be answered or wait for
-- their answer to be written.
pub Reach-Counted :
    (s : Conn)
    → Reach s
    → (s.turn + length s.pipereq + length s.waiting ≡ s.next)
      × (s.nwritten + length s.pipereq + answer_count s.waiting ≤ s.nread)
Reach-Counted _ start = (refl, omega arith)
Reach-Counted t (more {s = s} r step) = step-Counted s t step (Reach-Counted s r)

-- The error "persist server pipe count" is never reached: in every state that the calls lead to, an
-- answer whose turn has come is written and counted, if the write side has not failed, the connection has
-- not been taken away and the response can be written.
pub answer_accepted :
    (s : Conn) (before after : List Waiting) (close : Bool)
    → Reach s
    → s.waiting ≡ before ++ (answering s.turn close ∷ after)
    → s.we ≡ none
    → s.c ≡ true
    → let r = finish_write close none (record s { waiting = before ++ after }) in
      (r.1 ≡ none) × (r.0.nwritten ≡ suc s.nwritten) × (pending r.0 + 1 ≡ pending s)
unfolding finish_write
answer_accepted s before after close reach e w c =
    let (_, room) = Reach-Counted s reach in
    let (_, b) = remove-waiting (answering s.turn close) before after in
    let some_left : s.nwritten < s.nread = omega (arith, b, room, ap answer_count e) in
    rw (finish_write, w, c) (ground arith)
