-- ===== src/Response/Written.antt =====
-- `response.Write` (http/server.go), against the promise of a ResponseWriter.
use go_http.Prelude.{
  ℕ, ◌+◌, ◌≡◌, refl, sym, subst, Bool, true, false, [], ◌∷◌, ◌++◌, Bytes, is_empty, length, arith,
  append-nil, Bool-cases, inl, inr,
}
use go_http.Errors.{Error}
use go_http.Transfer.{Outcome, ok, err}
use go_http.Response.{Response, exceeds, write, write_checked, write_text}
use go_http.Response.Stream.{Phase, streamed}
use go_http.Response.Accepted.{accepted, write_text-Accepted}
use go_http.Response.Promise.{
  Promise, promise_write, Refines, Refines-streamed, write-checked, write_checked-refused,
  write_checked-forbidden, write_checked-open,
}

-- A write, against the promise.
pub promise_write-over :
    (text : Bytes) (p : Promise)
    → p.allowed ≡ true
    → exceeds p.limit (p.written + length text) ≡ true
    → promise_write text p ≡ record p { written = p.written + length text }
unfolding promise_write
promise_write-over text p yes' over = rw (yes', over)

pub promise_write-fits :
    (text : Bytes) (p : Promise)
    → p.allowed ≡ true
    → exceeds p.limit (p.written + length text) ≡ false
    → promise_write text p
      ≡ record p { written = p.written + length text; content = p.content ++ text }
unfolding promise_write
promise_write-fits text p yes' fits = rw (yes', fits)

pub promise_write-forbidden :
    (text : Bytes) (p : Promise) → p.allowed ≡ false → promise_write text p ≡ p
unfolding promise_write
promise_write-forbidden text p no' = rw no'

pub promise_write-nothing : (p : Promise) → promise_write [] p ≡ p
unfolding promise_write
promise_write-nothing p = ground (arith, append-nil p.content)

-- What a call may return: a response that refines a promise.
pub data Kept (c s : Bool) (base : Bytes) (p : Promise) (r : Response × Outcome ℕ) : Type 0 where
  kept : (u : Response) (n : ℕ) → r ≡ (u, ok n) → Refines c s base p u → Kept c s base p r
  refused : (u : Response) (e : Error) → r ≡ (u, err e) → Refines c s base p u → Kept c s base p r

pub write_text-Kept :
    (c s : Bool) (base : Bytes) (p : Promise) (w : Response) (text : Bytes)
    → Refines c s base p w
    → is_empty text ≡ false
    → Kept c s base
        (record p { written = p.written + length text; content = p.content ++ text })
        (write_text text (record w { written = p.written + length text }))
write_text-Kept c s base p w text r ne =
    elim (write_text-Accepted text (record w { written = p.written + length text }) s base p.content
      ne
      (subst (λ x. Phase x s base p.content w.need_sniff w.sniffed w.out) (sym r.chunking)
        r.phase)) [
          | accepted u n e (streamed need buffer out h phase) ↦ kept u n e (
              subst
                (λ x.
                  Refines c s base
                    (record p { written = p.written + length text; content = p.content ++ text }) x)
                (sym h)
                (Refines-streamed c s base p w r _ (p.written + length text) need buffer out refl
                  refl refl
                  (subst (λ x. Phase x s base (p.content ++ text) need buffer out) r.chunking
                    phase)))
        ]

pub write-Kept :
    (c s : Bool) (base : Bytes) (p : Promise) (w : Response) (text : Bytes)
    → Refines c s base p w
    → (date : Bytes) (sizes : ℕ → ℕ)
    → Kept c s base (promise_write text p) (write date sizes text w)
write-Kept c s base p w text r date sizes =
    subst (λ x. Kept c s base (promise_write text p) x)
      (sym (write-checked c s base p w r date sizes text)) (by_text text)
  where
    permitted :
        (x : ℕ) (xs : Bytes)
        → p.allowed ≡ true
        → Kept c s base (promise_write (x ∷ xs) p) (write_checked (x ∷ xs) w)
    permitted x xs yes' = elim (Bool-cases (exceeds p.limit (p.written + length (x ∷ xs)))) [
      | inl over ↦
          subst (λ q. Kept c s base q (write_checked (x ∷ xs) w))
            (sym (promise_write-over (x ∷ xs) p yes' over))
            (refused _ _ (write_checked-refused c s base p w r (x ∷ xs) refl yes' over) (
              Refines-streamed c s base p w r (record p { written = p.written + length (x ∷ xs) })
                (p.written + length (x ∷ xs)) w.need_sniff w.sniffed w.out refl refl refl r.phase))
      | inr fits ↦
          subst (λ q. Kept c s base q (write_checked (x ∷ xs) w))
            (sym (promise_write-fits (x ∷ xs) p yes' fits))
            (subst
              (λ q.
                Kept c s base
                  (record p {
                    written = p.written + length (x ∷ xs);
                    content = p.content ++ (x ∷ xs);
                  })
                  q)
              (sym (write_checked-open c s base p w r (x ∷ xs) refl yes' fits))
              (write_text-Kept c s base p w (x ∷ xs) r refl))
    ]

    checked :
        (x : ℕ) (xs : Bytes) → Kept c s base (promise_write (x ∷ xs) p) (write_checked (x ∷ xs) w)
    checked x xs = elim (Bool-cases p.allowed) [
      | inl yes' ↦ permitted x xs yes'
      | inr no' ↦
          subst (λ q. Kept c s base q (write_checked (x ∷ xs) w))
            (sym (promise_write-forbidden (x ∷ xs) p no'))
            (refused w _ (write_checked-forbidden c s base p w r (x ∷ xs) refl no') r)
    ]

    by_text : (t : Bytes) → Kept c s base (promise_write t p) (write_checked t w)
    by_text [] =
        kept w 0 (unfold write_checked in refl)
          (subst (λ q. Refines c s base q w) (sym (promise_write-nothing p)) r)
    by_text (x ∷ xs) = checked x xs
