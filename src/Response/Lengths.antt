-- ===== src/Response/Lengths.antt =====
-- Replies with a declared length (http/server.go, `Write` and `finishRequest`): never more than the
-- declared bytes, and exactly those where the connection is kept.
use go_http.Prelude.{
  ℕ, ◌≤◌, ◌≡◌, refl, sym, ap, subst, ◌∙◌, Bool, true, false, not, ◌&&◌, List, [], ◌∷◌, Bytes, arith,
  if◌then◌else◌, if_intro, Bool-cases, inl, inr, ◌⊎◌, if_false, append-nil, flatten, ◌++◌, length,
  length-append, All,
}
use go_http.Int.{ℤ, pos, pos_part}
use go_http.Transfer.{ok}
use go_http.Transfer.Writer.{minus_one, equal_ℤ}
use go_http.Response.{Response, exceeds, write_header, sniff, close_body}
use go_http.Response.Calls.{
  Call, perform_all, finish_request, restore_keep_alive, ensure_header, end_chunks, close_if_short,
}
use go_http.Response.Stream.{Phase, begun, sniff-Begun, Opening}
use go_http.Response.Promise.{
  Promise, Refines, Keeps, promise, promise_write, promise_copy, promise_source, takes, promise_all,
  ensure_header-again,
}
use go_http.Response.Performed.{perform_all-Refines}
use go_http.Response.Head.{Unsent, write_header-Sent}
use go_http.Response.Wire.{
  Finished, finished, finish_request-Finished, start, permits, Sent-Refines, Refines-restore,
}

-- All that was asked for has been accepted, or more than the limit has been asked for; the content
-- stays within a limit that is declared.
record IsKept (p : Promise) : Type 0 where
  within : exceeds p.limit p.written ≡ false → length p.content ≡ p.written
  below : equal_ℤ p.limit minus_one ≡ false → length p.content ≤ pos_part p.limit

promise_write-IsKept : (text : Bytes) (p : Promise) → IsKept p → IsKept (promise_write text p)
unfolding promise_write
promise_write-IsKept text p k = ground (arith, length-append {0} p.content text, k.within, k.below)

promise_copy-IsKept : (ts : List Bytes) (p : Promise) → IsKept p → IsKept (promise_copy ts p)
unfolding promise_copy
promise_copy-IsKept [] p k = k
promise_copy-IsKept (t ∷ ts) p k =
    if_intro IsKept (takes t p)
      (promise_copy-IsKept ts (promise_write t p) (promise_write-IsKept t p k))
      (promise_write-IsKept t p k)

-- The calls whose bytes are tested against the length: not a hijack, nor a `ReadFrom` that hands its
-- source to the connection.
abbrev pub Measures : Call → Type 0
Measures Call.hijack_now = ⊥
Measures (Call.source direct pieces) = direct ≡ false
Measures _ = Unit

Measures-Keeps : (call : Call) → Measures call → Keeps call
Measures-Keeps Call.hijack_now h = h
Measures-Keeps _ h = tt

All-Keeps : (calls : List Call) → All Measures calls → All Keeps calls
All-Keeps [] h = tt
All-Keeps (c ∷ cs) h = (Measures-Keeps c h.0, All-Keeps cs h.1)

promise_source-copied :
    (c direct : Bool) (pieces : List Bytes) (p : Promise)
    → direct ≡ false
    → promise_source c direct pieces p ≡ promise_copy pieces p
unfolding promise_source
promise_source-copied c direct pieces p e =
    if_false (not c && (p.allowed && direct)) _ _ (ground (arith, e))

module _ (chunking : Bool) where
  promise-IsKept :
      (call : Call) (p : Promise) → Measures call → IsKept p → IsKept (promise chunking call p)
  unfolding promise
  promise-IsKept (Call.body text) p h k = promise_write-IsKept text p k
  promise-IsKept (Call.source direct pieces) p h k =
      subst IsKept (sym (promise_source-copied chunking direct pieces p h))
        (promise_copy-IsKept pieces p k)
  promise-IsKept (Call.set_field f v) p h k = k
  promise-IsKept _ p h k = k

  promise_all-IsKept :
      (calls : List Call) (p : Promise)
      → All Measures calls
      → IsKept p
      → IsKept (promise_all chunking calls p)
  unfolding promise_all
  promise_all-IsKept [] p h k = k
  promise_all-IsKept (c ∷ cs) p h k =
      promise_all-IsKept cs (promise chunking c p) h.1 (promise-IsKept c p h.0 k)

promise_write-limit : (text : Bytes) (p : Promise) → (promise_write text p).limit ≡ p.limit
unfolding promise_write
promise_write-limit text p = ground arith

promise_copy-limit : (ts : List Bytes) (p : Promise) → (promise_copy ts p).limit ≡ p.limit
unfolding promise_copy
promise_copy-limit [] p = refl
promise_copy-limit (t ∷ ts) p =
    if_intro (λ (q : Promise). q.limit ≡ p.limit) (takes t p)
      (promise_copy-limit ts (promise_write t p) ∙ promise_write-limit t p)
      (promise_write-limit t p)

promise-limit : (c : Bool) (call : Call) (p : Promise) → (promise c call p).limit ≡ p.limit
unfolding promise promise_source
promise-limit c (Call.body text) p = promise_write-limit text p
promise-limit c (Call.source direct pieces) p =
    if_intro (λ (q : Promise). q.limit ≡ p.limit) (not c && (p.allowed && direct)) refl
      (promise_copy-limit pieces p)
promise-limit c (Call.set_field f v) p = refl
promise-limit c _ p = refl

promise_all-limit :
    (c : Bool) (calls : List Call) (p : Promise) → (promise_all c calls p).limit ≡ p.limit
unfolding promise_all
promise_all-limit c [] p = refl
promise_all-limit c (k ∷ ks) p = promise_all-limit c ks (promise c k p) ∙ promise-limit c k p

start-IsKept : (b : Bool) (n : ℤ) → IsKept (start b n)
start-IsKept b n = record { within = λ e. refl; below = λ e. omega arith }

close_if_short-kept :
    (w : Response)
    → (close_if_short w).close_after_reply ≡ false
    → equal_ℤ w.content_length minus_one ≡ false
    → equal_ℤ w.content_length (pos w.written) ≡ true
unfolding close_if_short
close_if_short-kept w e d = ground arith

-- What `finishRequest` compares is what the writes have counted.
record Counts (n : ℤ) (total : ℕ) (w : Response) : Type 0 where
  length_declared : w.content_length ≡ n
  bytes_counted : w.written ≡ total

end_chunks-Counts :
    (n : ℤ) (total : ℕ) (w : Response) → Counts n total w → Counts n total (end_chunks w)
unfolding end_chunks
end_chunks-Counts n total w k = ground arith

close_body-Counts :
    (sizes : ℕ → ℕ) (n : ℤ) (total : ℕ) (w : Response)
    → Counts n total w
    → Counts n total (close_body sizes w)
unfolding close_body
close_body-Counts sizes n total w k = ground arith

pub equal_ℤ-eq : (a b : ℤ) → equal_ℤ a b ≡ true → a ≡ b
equal_ℤ-eq a b e = ground arith

finish_request-kept :
    (c s : Bool) (base : Bytes) (p : Promise) (w : Response)
    → Refines c s base p w
    → (date : Bytes) (sizes : ℕ → ℕ) → (finish_request date sizes w).close_after_reply ≡ false
    → equal_ℤ p.limit minus_one ≡ false
    → p.limit ≡ pos p.written
unfolding finish_request
finish_request-kept c s base p w r date sizes open_ d =
    let v = restore_keep_alive w in
    let k : Refines c s base p v = Refines-restore c s base p w r in
    let u = end_chunks (sniff (ensure_header date sizes v)) in
    let x : Response = if u.close_after_reply then u else close_body sizes u in
    let counts : Counts p.limit p.written (sniff v) =
      elim (sniff-Begun v s base p.content (
        subst (λ y. Phase y s base p.content v.need_sniff v.sniffed v.out) (sym k.chunking)
          k.phase)) [
            | begun opening ps out e o f h ↦ record {
              length_declared = ap (λ (y : Response). y.content_length) e ∙ k.declared;
              bytes_counted = ap (λ (y : Response). y.written) e ∙ k.counted;
            }
          ] in
    let same : ensure_header date sizes v ≡ v = ensure_header-again c s base p v k date sizes in
    let here : Counts p.limit p.written u =
      end_chunks-Counts _ _ _ (subst (λ y. Counts p.limit p.written (sniff y)) (sym same) counts) in
    let there : Counts p.limit p.written x =
      if_intro (Counts p.limit p.written) u.close_after_reply here
        (close_body-Counts sizes _ _ u here) in
    equal_ℤ-eq p.limit (pos p.written) (
      ap (λ n. equal_ℤ n (pos p.written)) (sym there.length_declared)
      ∙ ap (λ t. equal_ℤ x.content_length (pos t)) (sym there.bytes_counted)
      ∙ close_if_short-kept x open_ (ap (λ n. equal_ℤ n minus_one) there.length_declared ∙ d))

exactly : (n : ℤ) (t : ℕ) → n ≡ pos t → exceeds n t ≡ false
exactly n t e = ground arith

-- A reply that is not chunked: behind the header and the opening stands the content.
Finished-plain :
    (s : Bool) (base content out : Bytes)
    → Finished false s base content out
    → (opening : Bytes) × Opening content s opening × (out ≡ base ++ (opening ++ content))
Finished-plain s base content out (finished opening ps o f e) =
    (opening, o, e ∙ ap (λ x. base ++ (opening ++ x)) (append-nil (flatten ps) ∙ f))

-- A reply with a declared length, through whatever calls but `Hijack` and a `ReadFrom` that hands its
-- source to the connection: on the wire behind the header and its opening stands a body of no more
-- bytes than declared, and if the connection is kept behind the reply of exactly as many. No 100
-- Continue is owed to the client; a declared length of -1 is left out.
pub reply_length :
    (date : Bytes) (sizes : ℕ → ℕ) (code : ℕ) (w : Response) (calls : List Call)
    → Unsent w
    → (w.expecter && not w.wrote_continue) ≡ false
    → All Measures calls
    → (write_header date sizes code w).chunking ≡ false
    → equal_ℤ (write_header date sizes code w).content_length minus_one ≡ false
    → (v : Response) × (opening : Bytes) × (sent : Bytes) × (perform_all date sizes calls
          (write_header date sizes code w)
        ≡ ok v)
      × Opening sent (write_header date sizes code w).need_sniff opening
      × ((finish_request date sizes v).out
          ≡ (write_header date sizes code w).out ++ (opening ++ sent))
      × (length sent ≤ pos_part (write_header date sizes code w).content_length)
      × (((finish_request date sizes v).close_after_reply ≡ true)
          ⊎ ((write_header date sizes code w).content_length ≡ pos (length sent)))
reply_length date sizes code w calls f quiet measures plain d =
    let u = write_header date sizes code w in
    let first = start (permits code w) u.content_length in
    let p = promise_all u.chunking calls first in
    let r = Sent-Refines code w u (write_header-Sent date sizes code w f) f quiet in
    let (v, e, k) =
      perform_all-Refines u.chunking u.need_sniff u.out first u calls r (All-Keeps calls measures)
        date sizes in
    let lim : p.limit ≡ u.content_length = promise_all-limit u.chunking calls first in
    let kept : IsKept p =
      promise_all-IsKept u.chunking calls first measures
        (start-IsKept (permits code w) u.content_length) in
    let d' : equal_ℤ p.limit minus_one ≡ false = ap (λ n. equal_ℤ n minus_one) lim ∙ d in
    let closing : ((finish_request date sizes v).close_after_reply ≡ true)
        ⊎ (u.content_length ≡ pos (length p.content)) =
      elim (Bool-cases (finish_request date sizes v).close_after_reply) [
        | inl shut ↦ inl shut
        | inr open_ ↦
            let exact =
              finish_request-kept u.chunking u.need_sniff u.out p v k date sizes open_ d' in
            inr (sym lim ∙ exact ∙ ap pos (sym (kept.within (exactly p.limit p.written exact))))
      ] in
    let (opening, o, out) =
      Finished-plain u.need_sniff u.out p.content (finish_request date sizes v).out (
        subst (λ c. Finished c u.need_sniff u.out p.content (finish_request date sizes v).out) plain
          (finish_request-Finished u.chunking u.need_sniff u.out p v k date sizes)) in
    (
      v,
      opening,
      p.content,
      e,
      o,
      out,
      subst (λ n. length p.content ≤ pos_part n) lim (kept.below d'),
      closing,
    )
