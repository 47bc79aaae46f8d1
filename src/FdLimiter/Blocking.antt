-- ===== src/FdLimiter/Blocking.antt =====
-- What `Unlock` does at the limit when no thread waits (util/fdlimiter.go).
use go_http.Prelude.{
  ℕ, ◌-◌, ◌<◌, true, ◌⊎◌, inl, inr, ◌≡◌, ◌≢◌, refl, ◌∙◌, some, arith, Bool-cases, ◌==◌,
}
use native.Mathlib.Decide.{ℕ_discrete}
use go_http.FdLimiter.{
  Limiter, Sys, Place, outside, waiting, inside, sending, unlock_op, unlock, notify, move, Step,
  call, enter, grant, park, expire, alarm, message, release, signal, meet, panic, Reach, here, next,
}

-- Thread `i` is at `ch <- 1` with the mutex; every other thread is outside or waits for the mutex.
abbrev pub Quiet : Place → Type 0
Quiet outside = Unit
Quiet (waiting o) = Unit
Quiet _ = ⊥

pub record IsStuck (i : ℕ) (s : Sys) : Type 0 where
  pub held : s.holder ≡ some i
  pub sends : s.place i ≡ sending
  pub others : (j : ℕ) → j ≢ i → Quiet (s.place j)

Quiet-or_sender :
    (i : ℕ) (s : Sys) → IsStuck i s → (j : ℕ) → (s.place j ≡ sending) ⊎ Quiet (s.place j)
Quiet-or_sender i s h j = elim (ℕ_discrete j i) [
  | yes e ↦ inl (rw e h.sends)
  | no ne ↦ inr (h.others j ne)
]

-- The only step left is a call by some other thread.
Step-IsStuck : {s t : Sys} (i : ℕ) → Step s t → IsStuck i s → IsStuck i t × (t.limiter ≡ s.limiter)
Step-IsStuck i (call s j o e) h =
    let apart : j ≢ i = λ same. let f : s.place i ≡ outside = rw (← same) e in cc (h.sends) in
    (
      record {
        held = h.held;
        sends = ground (arith, h.sends, apart);
        others = λ k ne. elim (Bool-cases (j == k)) [
          | inl hit ↦ rw hit tt
          | inr miss ↦ rw miss (h.others k ne)
        ];
      },
      refl,
    )
Step-IsStuck i (enter s j o e free) h = absurd (ground (arith, h.held))
Step-IsStuck i (grant s j o e _ _) h = ground (arith, Quiet-or_sender i s h j)
Step-IsStuck i (park s j o e _ _) h = ground (arith, Quiet-or_sender i s h j)
Step-IsStuck i (expire s j e _) h = ground (arith, Quiet-or_sender i s h j)
Step-IsStuck i (alarm s j e) h = ground (arith, Quiet-or_sender i s h j)
Step-IsStuck i (message s j e) h = ground (arith, Quiet-or_sender i s h j)
Step-IsStuck i (release s j l e u) h = ground (arith, Quiet-or_sender i s h j)
Step-IsStuck i (signal s j l e u) h = ground (arith, Quiet-or_sender i s h j)
Step-IsStuck i (meet s j k o e p) h = ground (arith, Quiet-or_sender i s h k)
Step-IsStuck i (panic s j e u) h = ground (arith, Quiet-or_sender i s h j)

Reach-IsStuck :
    {s t : Sys} (i : ℕ) → IsStuck i s → Reach s t → IsStuck i t × (t.limiter ≡ s.limiter)
Reach-IsStuck i h here = (h, refl)
Reach-IsStuck i h (next r st) =
    let (g, e) = Reach-IsStuck i h r in let (g', e') = Step-IsStuck i st g in (g', e' ∙ e)

unlock_at_limit :
    (l : Limiter) → 0 < l.count → l.count ≡ l.limit → (m : Limiter) × (unlock l ≡ some (m, true))
unfolding unlock
unlock_at_limit l pos full = (notify (record l { count = l.count - 1 }), ground arith)

-- A send that no thread waits for never ends: if thread `i` runs `Unlock` on a limiter that is at its
-- limit while every other thread is outside the methods or waits for the mutex, then `Unlock`
-- comes to `ch <- 1` with the mutex held, and in every state reached from there it is still at
-- that send, the mutex is still its own, and the count has not changed.
pub unlock_blocks :
    (s : Sys) (i : ℕ)
    → 0 < s.limiter.count
    → s.limiter.count ≡ s.limiter.limit
    → s.place i ≡ inside unlock_op
    → s.holder ≡ some i
    → ((j : ℕ) → j ≢ i → Quiet (s.place j))
    → (u : Sys) × Step s u
      × ((t : Sys)
          → Reach u t
          → (t.place i ≡ sending) × (t.holder ≡ some i) × (t.limiter ≡ u.limiter))
unlock_blocks s i pos full e held others =
    let (l, out) = unlock_at_limit s.limiter pos full in
    let u : Sys = record (move s i sending) { limiter = l } in
    let stuck : IsStuck i u = record {
      held = held;
      sends = ground arith;
      others = λ j ne. ground (arith, others j ne, ne);
    } in
    (
      u,
      signal s i l e out,
      λ t r. let (g, same) = Reach-IsStuck i stuck r in (g.sends, g.held, same),
    )
