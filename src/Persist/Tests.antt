-- ===== src/Persist/Tests.antt =====
-- The theorems on http/persist.go at concrete connections.
use go_http.Prelude.{suc, ◌+◌, ◌≤◌, ◌<◌, ◌≡◌, refl, [], ◌∷◌, ◌++◌, none, true, false, length, All}
use go_http.Persist.{Conn, new_conn, lookup, assign, delete, answering}
use go_http.Persist.Server.{
  read, got, begin_write, finish_write, pending, Reach, start, more, reads_request, begins,
}
use go_http.Persist.Client.{write, Leads, here}
use go_http.Persist.Client
use go_http.Persist.Pending.{answer_count, Reach-Counted, answer_accepted}
use go_http.Persist.Twice.{write_twice, id_of}

-- one request has been read, and its answer begun
abbrev answering_one : Conn
answering_one = (begin_write 7 false (read none (got 7 false) new_conn).0).0

answering_one-Reach : Reach answering_one
unfolding lookup
answering_one-Reach = more (more start (reads_request none 7 false refl)) (begins 7 false)

Reach-Counted_example :
    (answering_one.turn + length answering_one.pipereq + length answering_one.waiting
      ≡ answering_one.next)
    × (answering_one.nwritten + length answering_one.pipereq + answer_count answering_one.waiting
        ≤ answering_one.nread)
Reach-Counted_example = Reach-Counted answering_one answering_one-Reach

answering_one_waits : answering_one.waiting ≡ [] ++ (answering answering_one.turn false ∷ [])
unfolding read begin_write lookup assign delete
answering_one_waits = refl

answering_one_open : (answering_one.we ≡ none) × (answering_one.c ≡ true)
unfolding read begin_write lookup assign delete
answering_one_open = (refl, refl)

answer_accepted_example :
    let r = finish_write false none (record answering_one { waiting = [] ++ [] }) in
    (r.1 ≡ none)
    × (r.0.nwritten ≡ suc answering_one.nwritten)
    × (pending r.0 + 1 ≡ pending answering_one)
answer_accepted_example =
    answer_accepted answering_one [] [] false answering_one-Reach answering_one_waits
      answering_one_open.0 answering_one_open.1

abbrev wrote_twice : Conn
wrote_twice = (write 7 false none (write 7 false none new_conn).0).0

write_twice_example :
    ((Client.begin_read 7 wrote_twice).0.turn ≡ 0)
    × ((Client.begin_read 7 wrote_twice).0.nread ≡ 0)
    × All (λ w. 0 < id_of w) (Client.begin_read 7 wrote_twice).0.waiting
write_twice_example =
    write_twice 7 (Client.begin_read 7 wrote_twice).0 (Client.more here (Client.begins 7))
