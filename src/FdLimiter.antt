-- ===== src/FdLimiter.antt =====
-- util/fdlimiter.go: the limit on file descriptors, with its mutex `lk` and its channel `ch`.
-- The critical sections are functions on the limiter; goroutines that call the methods are threads
-- of a step relation, one step for each blocking operation or critical section. A notify channel
-- is the list of the numbers sent on it, and its reader is always ready.
pub mod Safety
pub mod Blocking
mod Tests
use Prim.Native.Nat.{compare, Ordering}
use go_http.Prelude.{
  ℕ, suc, ◌+◌, ◌-◌, Bool, true, false, List, [], ◌∷◌, ◌++◌, ◌≡◌, Option, none, some, ltb, leb, ◌==◌,
  if◌then◌else◌,
}

-- `FDLimiter`, less the mutex and the channel
pub record Limiter : Type 0 where
  pub limit : ℕ
  pub count : ℕ
  pub nfych : Option (List ℕ)

-- `Init`, where `none` is the panic on a bad limit; it leaves the notify channel alone
unfoldable pub init : Limiter → ℕ → Option Limiter
init l fdlim = if fdlim == 0 then none else some (record l { limit = fdlim; count = 0 })

-- `SetNotifyChan`, on a channel on which nothing has been sent
unfoldable pub set_notify_chan : Limiter → Bool → Limiter
set_notify_chan l on = record l { nfych = if on then some [] else none }

-- `notify`
unfoldable pub notify : Limiter → Limiter
notify l = record l {
  nfych = elim l.nfych [ none ↦ none | some sent ↦ some (sent ++ (l.count ∷ [])) ];
}

-- `LockCount`
unfoldable pub lock_count : Limiter → ℕ
lock_count l = l.count

-- The critical section of `Lock`, `LockOrTimeout` and `LockOrChan`: the test, and whether it passed.
unfoldable pub try_lock : Limiter → Limiter × Bool
unfolding notify
try_lock l =
    if ltb l.count l.limit then (notify (record l { count = l.count + 1 }), true) else (l, false)

-- The critical section of `Unlock`: `none` is the panic, and the flag says whether it goes on to
-- send on `ch`.
unfoldable pub unlock : Limiter → Option (Limiter × Bool)
unfolding notify
unlock l =
    if l.count == 0
    then none
    else some (notify (record l { count = l.count - 1 }), l.count - 1 == l.limit - 1)

-- The methods that block.
pub data Op : Type 0 where
  lock_op timeout_op chan_op unlock_op : Op

abbrev pub IsLock : Op → Type 0
IsLock unlock_op = ⊥
IsLock _ = Unit

-- Where a thread stands: outside the methods, at `lk.Lock()`, inside the critical section, at
-- `<-ch`, at `ch <- 1` with the mutex held, or after a panic with the mutex held.
pub data Place : Type 0 where
  outside : Place
  waiting : Op → Place
  inside : Op → Place
  parked : Op → Place
  sending : Place
  panicked : Place

pub record Sys : Type 0 where
  pub limiter : Limiter
  -- the thread that holds `lk`
  pub holder : Option ℕ
  pub place : ℕ → Place

abbrev pub at {ℓ} : {A : Type ℓ} → (ℕ → A) → ℕ → A → ℕ → A
at f i a j = if i == j then a else f j

abbrev pub move : Sys → ℕ → Place → Sys
move s i p = record s { place = at s.place i p }

pub data Step : Sys → Sys → Type 0 where
  -- a method is called
  call : (s : Sys) (i : ℕ) (o : Op) → s.place i ≡ outside → Step s (move s i (waiting o))
  -- `lk.Lock()` succeeds
  enter :
      (s : Sys) (i : ℕ) (o : Op)
      → s.place i ≡ waiting o
      → s.holder ≡ none
      → Step s (record (move s i (inside o)) { holder = some i })
  -- the test passes, and the method returns
  grant :
      (s : Sys) (i : ℕ) (o : Op)
      → s.place i ≡ inside o
      → IsLock o
      → (try_lock s.limiter).1 ≡ true
      → Step s (record (move s i outside) { limiter = (try_lock s.limiter).0; holder = none })
  -- the test fails, and the thread waits on `ch`
  park :
      (s : Sys) (i : ℕ) (o : Op)
      → s.place i ≡ inside o
      → IsLock o
      → (try_lock s.limiter).1 ≡ false
      → Step s (record (move s i (parked o)) { holder = none })
  -- `waitsofar >= ns`: `LockOrTimeout` gives up
  expire :
      (s : Sys) (i : ℕ)
      → s.place i ≡ inside timeout_op
      → (try_lock s.limiter).1 ≡ false
      → Step s (record (move s i outside) { holder = none })
  -- the alarm of `LockOrTimeout` goes off, and its loop starts again
  alarm : (s : Sys) (i : ℕ) → s.place i ≡ parked timeout_op → Step s (move s i (waiting timeout_op))
  -- a message ends `LockOrChan`
  message : (s : Sys) (i : ℕ) → s.place i ≡ parked chan_op → Step s (move s i outside)
  -- `Unlock` returns with nothing to send
  release :
      (s : Sys) (i : ℕ) (l : Limiter)
      → s.place i ≡ inside unlock_op
      → unlock s.limiter ≡ some (l, false)
      → Step s (record (move s i outside) { limiter = l; holder = none })
  -- `Unlock` comes to `ch <- 1`, and keeps the mutex
  signal :
      (s : Sys) (i : ℕ) (l : Limiter)
      → s.place i ≡ inside unlock_op
      → unlock s.limiter ≡ some (l, true)
      → Step s (record (move s i sending) { limiter = l })
  -- the send meets a thread at `<-ch`: `Unlock` returns, and the other thread starts its loop again
  meet :
      (s : Sys) (i j : ℕ) (o : Op)
      → s.place i ≡ sending
      → s.place j ≡ parked o
      → Step s (record (move (move s i outside) j (waiting o)) { holder = none })
  -- `Unlock` on a count of zero
  panic :
      (s : Sys) (i : ℕ)
      → s.place i ≡ inside unlock_op
      → unlock s.limiter ≡ none
      → Step s (move s i panicked)

pub data Reach (s : Sys) : Sys → Type 0 where
  here : Reach s s
  next : {t u : Sys} → Reach s t → Step t u → Reach s u
