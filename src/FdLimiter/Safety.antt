-- ===== src/FdLimiter/Safety.antt =====
-- The count stays within the limit, and the mutex has one holder (util/fdlimiter.go).
use go_http.Prelude.{
  ℕ, ◌+◌, ◌≤◌, Bool, true, false, ◌⊎◌, inl, inr, ◌≡◌, ◌≢◌, sym, subst, Option, none, some, arith,
}
use go_http.FdLimiter.{
  Limiter, Sys, Place, outside, waiting, inside, parked, sending, panicked, timeout_op, try_lock,
  unlock, at, Step, call, enter, grant, park, expire, alarm, message, release, signal, meet, panic,
  Reach, here, next,
}

-- The places at which a thread holds `lk`.
abbrev pub Holds : Place → Type 0
Holds (inside o) = Unit
Holds sending = Unit
Holds panicked = Unit
Holds _ = ⊥

pub record IsSafe (s : Sys) : Type 0 where
  pub bounded : s.limiter.count ≤ s.limiter.limit
  pub owned : (i : ℕ) → Holds (s.place i) → s.holder ≡ some i

try_lock-bounded :
    (l : Limiter)
    → l.count ≤ l.limit
    → ((try_lock l).0.count ≤ (try_lock l).0.limit) × ((try_lock l).0.limit ≡ l.limit)
unfolding try_lock
try_lock-bounded l h = ground arith

unlock-bounded :
    (l m : Limiter) (b : Bool)
    → unlock l ≡ some (m, b)
    → l.count ≤ l.limit
    → (m.count ≤ m.limit) × (m.limit ≡ l.limit) × (m.count + 1 ≡ l.count)
unfolding unlock
unlock-bounded l m b e h = ground arith

at-cases :
    (f : ℕ → Place) (i : ℕ) (p : Place) (j : ℕ)
    → ((i ≡ j) × (at f i p j ≡ p)) ⊎ ((i ≢ j) × (at f i p j ≡ f j))
at-cases f i p j = ground arith

abbrev Owned : (ℕ → Place) → Option ℕ → Type 0
Owned f holder = (j : ℕ) → Holds (f j) → holder ≡ some j

module _ (f : ℕ → Place) (holder : Option ℕ) (owned : Owned f holder) (i : ℕ) (p : Place) where
  -- a thread that moves under the same holder
  stay : (Holds p → holder ≡ some i) → Owned (at f i p) holder
  stay fits j h = elim (at-cases f i p j) [
    | inl (e, a) ↦ rw (← e) (fits (subst Holds a h))
    | inr (_, a) ↦ owned j (subst Holds a h)
  ]

  -- the holder moves away from the mutex
  leave : Holds (f i) → ¬ Holds p → Owned (at f i p) none
  leave held gone j h = elim (at-cases f i p j) [
    | inl (_, a) ↦ absurd (gone (subst Holds a h))
    | inr (ne, a) ↦
        let mine : holder ≡ some i = owned i held in
        let other : holder ≡ some j = owned j (subst Holds a h) in absurd (ground (arith, ne))
  ]

  -- a thread takes the mutex when it is free
  take_it : holder ≡ none → Owned (at f i p) (some i)
  take_it free j h = elim (at-cases f i p j) [
    | inl (e, _) ↦ rw e
    | inr (_, a) ↦ let other : holder ≡ some j = owned j (subst Holds a h) in absurd (ground arith)
  ]

held_at : {q p : Place} → q ≡ p → Holds p → Holds q
held_at e h = subst Holds (sym e) h

Step-IsSafe : {s t : Sys} → Step s t → IsSafe s → IsSafe t
Step-IsSafe (call s i o e) h = record {
  bounded = h.bounded;
  owned = stay s.place s.holder h.owned i (waiting o) absurd;
}
Step-IsSafe (enter s i o e free) h = record {
  bounded = h.bounded;
  owned = take_it s.place s.holder h.owned i (inside o) free;
}
Step-IsSafe (grant s i o e _ _) h = record {
  bounded = (try_lock-bounded s.limiter h.bounded).0;
  owned = leave s.place s.holder h.owned i outside (held_at e tt) (λ x. x);
}
Step-IsSafe (park s i o e _ _) h = record {
  bounded = h.bounded;
  owned = leave s.place s.holder h.owned i (parked o) (held_at e tt) (λ x. x);
}
Step-IsSafe (expire s i e _) h = record {
  bounded = h.bounded;
  owned = leave s.place s.holder h.owned i outside (held_at e tt) (λ x. x);
}
Step-IsSafe (alarm s i e) h = record {
  bounded = h.bounded;
  owned = stay s.place s.holder h.owned i (waiting timeout_op) absurd;
}
Step-IsSafe (message s i e) h = record {
  bounded = h.bounded;
  owned = stay s.place s.holder h.owned i outside absurd;
}
Step-IsSafe (release s i l e u) h = record {
  bounded = (unlock-bounded s.limiter l false u h.bounded).0;
  owned = leave s.place s.holder h.owned i outside (held_at e tt) (λ x. x);
}
Step-IsSafe (signal s i l e u) h = record {
  bounded = (unlock-bounded s.limiter l true u h.bounded).0;
  owned = stay s.place s.holder h.owned i sending (λ _. h.owned i (held_at e tt));
}
Step-IsSafe (meet s i j o e k) h = record {
  bounded = h.bounded;
  owned =
      stay (at s.place i outside) none
        (leave s.place s.holder h.owned i outside (held_at e tt) (λ x. x)) j (waiting o) absurd;
}
Step-IsSafe (panic s i e u) h = record {
  bounded = h.bounded;
  owned = stay s.place s.holder h.owned i panicked (λ _. h.owned i (held_at e tt));
}

Reach-IsSafe : {s t : Sys} → IsSafe s → Reach s t → IsSafe t
Reach-IsSafe h here = h
Reach-IsSafe h (next r st) = Step-IsSafe st (Reach-IsSafe h r)

-- A limiter that nobody uses yet.
abbrev pub idle : Limiter → Sys
idle l = record { limiter = l; holder = none; place = λ _. outside }

-- However the threads interleave, from an idle limiter whose count is within its limit the count
-- never passes the limit, and no two threads are ever inside critical sections at once.
pub Reach-idle :
    (l : Limiter) (t : Sys)
    → l.count ≤ l.limit
    → Reach (idle l) t
    → (t.limiter.count ≤ t.limiter.limit)
      × ((i j : ℕ) → Holds (t.place i) → Holds (t.place j) → i ≡ j)
Reach-idle l t h r =
    let safe = Reach-IsSafe (record { bounded = h; owned = λ _. absurd }) r in
    (
      safe.bounded,
      λ i j a b.
          let p : t.holder ≡ some i = safe.owned i a in
          let q : t.holder ≡ some j = safe.owned j b in cc,
    )
