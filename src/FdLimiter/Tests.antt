-- ===== src/FdLimiter/Tests.antt =====
-- The theorems on util/fdlimiter.go at a limiter of one descriptor.
use go_http.Prelude.{ℕ, ◌≤◌, ◌≡◌, ◌≢◌, refl, none, some, arith, []}
use go_http.FdLimiter.{
  Limiter, Sys, outside, waiting, inside, sending, lock_op, unlock_op, at, move, call, enter, Step,
  Reach, here, next, init,
}
use go_http.FdLimiter.Safety.{Holds, Reach-idle, idle}
use go_http.FdLimiter.Blocking.{unlock_blocks, Quiet}

abbrev one : Limiter
one = record { limit = 1; count = 0; nfych = none }

init_runs :
    init (record { limit = 0; count = 7; nfych = some [] }) 1
    ≡ some (record { limit = 1; count = 0; nfych = some [] })
unfolding init
init_runs = refl

-- thread 3 has called `Lock` and is inside
abbrev entered : Sys
entered = record (move (move (idle one) 3 (waiting lock_op)) 3 (inside lock_op)) { holder = some 3 }

entered-Reach : Reach (idle one) entered
entered-Reach =
    next (next here (call (idle one) 3 lock_op refl))
      (enter (move (idle one) 3 (waiting lock_op)) 3 lock_op refl refl)

Reach-idle_example :
    (0 ≤ 1) × ((i j : ℕ) → Holds (entered.place i) → Holds (entered.place j) → i ≡ j)
Reach-idle_example = Reach-idle one entered (omega arith) entered-Reach

-- the one descriptor is taken, and thread 3 is inside `Unlock`
abbrev releasing : Sys
releasing = record {
  limiter = record { limit = 1; count = 1; nfych = none };
  holder = some 3;
  place = at (λ _. outside) 3 (inside unlock_op);
}

releasing-Quiet : (j : ℕ) → j ≢ 3 → Quiet (releasing.place j)
releasing-Quiet j ne = ground arith

unlock_blocks_example :
    (u : Sys) × Step releasing u
    × ((t : Sys)
        → Reach u t
        → (t.place 3 ≡ sending) × (t.holder ≡ some 3) × (t.limiter ≡ u.limiter))
unlock_blocks_example = unlock_blocks releasing 3 (omega arith) refl refl refl releasing-Quiet
