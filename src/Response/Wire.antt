-- ===== src/Response/Wire.antt =====
-- The reply on the wire, from the header to `response.finishRequest` (http/server.go).
use go_http.Prelude.{
  ℕ, ◌<◌, ◌≡◌, refl, sym, ap, subst, ◌∙◌, Bool, true, false, not, ◌&&◌, List, [], ◌∷◌, ◌++◌, none,
  some, Bytes, arith, if◌then◌else◌, if_intro, ◌==◌, flatten, length, length-append, suc, ◌^◌, All,
  append_assoc, append-nil,
}
use go_http.Int.{ℤ}
use go_http.Errors.{eof}
use go_http.Transfer.{ok}
use go_http.Chunked.{crlf, chunks, close_chunks, read_all}
use go_http.Chunked.RoundTrip.{read_all-chunked}
use go_http.Response.{Response, write_header, sniff, close_body, is_head}
use go_http.Response.Calls.{
  Call, perform_all, finish_request, restore_keep_alive, ensure_header, end_chunks, close_if_short,
}
use go_http.Response.Stream.{
  Phase, pending, started, Opening, closed, begun, coded, coded-nil, sniff-Begun,
}
use go_http.Response.Promise.{
  Promise, Refines, Keeps, promise_all, Refines-aside, ensure_header-again,
}
use go_http.Response.Performed.{perform_all-Refines}
use go_http.Response.Head.{Unsent, Sent, sent, write_header-Sent}

abbrev pub start : Bool → ℤ → Promise
start allowed limit = record { allowed = allowed; limit = limit; written = 0; content = [] }

-- whether a body goes with the reply
abbrev pub permits : ℕ → Response → Bool
permits code w = not (code == 304) && not (is_head w.req)

first_phase :
    (c : Bool) (out buffer : Bytes) (need : Bool)
    → buffer ≡ []
    → Phase c need out [] need buffer out
first_phase c out buffer true e = pending refl refl e (omega arith) refl
first_phase c out buffer false e =
    started [] [] refl (closed refl refl) refl
      (sym (ap (λ t. out ++ t) (coded-nil c) ∙ append-nil out))

pub Sent-Refines :
    (code : ℕ) (w u : Response)
    → Sent code w u
    → Unsent w
    → (w.expecter && not w.wrote_continue) ≡ false
    → Refines u.chunking u.need_sniff u.out (start (permits code w) u.content_length) u
Sent-Refines code w u (sent b shut h need c n closing out e) f quiet = record {
  wrote = ap (λ (x : Response). x.wrote_header) e;
  live = ap (λ (x : Response). x.hijacked) e ∙ f.live;
  allowed = ap (λ (x : Response). not (x.status == 304) && not (is_head x.req)) e;
  chunking = refl;
  declared = refl;
  counted = ap (λ (x : Response). x.written) e ∙ f.uncounted;
  quiet = ap (λ (x : Response). x.expecter && not x.wrote_continue) e ∙ quiet;
  phase =
      first_phase u.chunking u.out u.sniffed u.need_sniff
        (ap (λ (x : Response). x.sniffed) e ∙ f.empty);
}

-- The end of the body on the wire.
abbrev pub ending : Bool → Bytes
ending c = if c then close_chunks ++ crlf else []

end_chunks-out : (w : Response) → (end_chunks w).out ≡ w.out ++ ending w.chunking
unfolding end_chunks
end_chunks-out w = ground (arith, append-nil w.out)

close_if_short-out : (w : Response) → (close_if_short w).out ≡ w.out
unfolding close_if_short
close_if_short-out w = if_intro (λ (u : Response). u.out ≡ w.out) _ refl refl

close_body-out : (sizes : ℕ → ℕ) (w : Response) → (close_body sizes w).out ≡ w.out
unfolding close_body
close_body-out sizes w = refl

-- The reply is finished: what is on the wire.
pub data Finished (c s : Bool) (base content : Bytes) (out : Bytes) : Type 0 where
  finished :
      (opening : Bytes) (ps : List Bytes)
      → Opening content s opening
      → flatten ps ≡ content
      → out ≡ base ++ (opening ++ (coded c ps ++ ending c))
      → Finished c s base content out

finish-out :
    (date : Bytes) (sizes : ℕ → ℕ) (w : Response)
    → (finish_request date sizes w).out
      ≡ (end_chunks (sniff (ensure_header date sizes (restore_keep_alive w)))).out
unfolding finish_request
finish-out date sizes w =
    let u = end_chunks (sniff (ensure_header date sizes (restore_keep_alive w))) in
    close_if_short-out (if u.close_after_reply then u else close_body sizes u)
    ∙ if_intro (λ (x : Response). x.out ≡ u.out) u.close_after_reply refl (close_body-out sizes u)

pub Refines-restore :
    (c s : Bool) (base : Bytes) (p : Promise) (w : Response)
    → Refines c s base p w
    → Refines c s base p (restore_keep_alive w)
unfolding restore_keep_alive
Refines-restore c s base p w r =
    if_intro (Refines c s base p) _ (Refines-aside c s base p w r _ _ _ _ _) r

pub finish_request-Finished :
    (c s : Bool) (base : Bytes) (p : Promise) (w : Response)
    → Refines c s base p w
    → (date : Bytes) (sizes : ℕ → ℕ) → Finished c s base p.content (finish_request date sizes w).out
finish_request-Finished c s base p w r date sizes =
    let v = restore_keep_alive w in
    let k : Refines c s base p v = Refines-restore c s base p w r in
    let same : ensure_header date sizes v ≡ v = ensure_header-again c s base p v k date sizes in
    elim (sniff-Begun v s base p.content (
      subst (λ x. Phase x s base p.content v.need_sniff v.sniffed v.out) (sym k.chunking)
        k.phase)) [
          | begun opening ps out e o f h ↦ finished opening ps o f (
              finish-out date sizes w
              ∙ ap (λ x. (end_chunks (sniff x)).out) same
              ∙ end_chunks-out (sniff v)
              ∙ ap (λ (x : Response). x.out ++ ending x.chunking) e
              ∙ ap (λ x. x ++ ending v.chunking) h
              ∙ ap (λ b. base ++ (opening ++ coded b ps) ++ ending b) k.chunking
              ∙ append_assoc base _ _
              ∙ ap (λ x. base ++ x) (append_assoc opening _ _))
        ]

-- The reply to a request, from `WriteHeader` to `finishRequest`: whatever calls of the response but
-- `Hijack` the handler makes in between, they return, and behind the header the wire holds the
-- opening, the blocks of the content that the promise of a ResponseWriter accepts, and the ending.
-- No 100 Continue is owed to the client.
pub reply_refines :
    (date : Bytes) (sizes : ℕ → ℕ) (code : ℕ) (w : Response) (calls : List Call)
    → Unsent w
    → (w.expecter && not w.wrote_continue) ≡ false
    → All Keeps calls
    → (v : Response) × (perform_all date sizes calls (write_header date sizes code w) ≡ ok v)
      × Finished
          (write_header date sizes code w).chunking
          (write_header date sizes code w).need_sniff
          (write_header date sizes code w).out
          (promise_all
            (write_header date sizes code w).chunking
            calls
            (start (permits code w) (write_header date sizes code w).content_length)).content
          (finish_request date sizes v).out
reply_refines date sizes code w calls f quiet keeps =
    let u = write_header date sizes code w in
    let r = Sent-Refines code w u (write_header-Sent date sizes code w f) f quiet in
    let (v, e, k) =
      perform_all-Refines u.chunking u.need_sniff u.out (start (permits code w) u.content_length) u
        calls r keeps date sizes in
    (v, e, finish_request-Finished u.chunking u.need_sniff u.out _ v k date sizes)

short_pieces : (ps : List Bytes) → length (flatten ps) < 2 ^ 64 → All (λ p. length p < 2 ^ 64) ps
short_pieces [] h = tt
short_pieces (p ∷ ps) h = (
  omega (arith, length-append {0} p (flatten ps)),
  short_pieces ps (omega (arith, length-append {0} p (flatten ps))),
)

-- A chunked text is read back: behind the header and the opening stands a text from which the
-- chunked reader, whatever sizes it asks for and is handed, returns exactly the content, and leaves
-- what follows the reply.
Finished-chunked :
    (s : Bool) (base content out : Bytes) (sizes : ℕ → ℕ × ℕ) (more : Bytes)
    → Finished true s base content out
    → length content < 2 ^ 64
    → (opening : Bytes) × (coding : Bytes) × Opening content s opening
      × (out ≡ base ++ (opening ++ coding))
      × (read_all (suc (length content)) sizes (record { wire = coding ++ more; n = 0; err = none })
          ≡ (record { wire = more; n = 0; err = some eof }, content))
Finished-chunked s base content out sizes more (finished opening ps o f e) le = (
  opening,
  chunks ps ++ (close_chunks ++ crlf),
  o,
  e,
  subst
      (λ t.
        read_all (suc (length t)) sizes
          (record { wire = (chunks ps ++ (close_chunks ++ crlf)) ++ more; n = 0; err = none })
        ≡ (record { wire = more; n = 0; err = some eof }, t))
      f
      (ap (λ t. read_all (suc (length (flatten ps))) sizes (record { wire = t; n = 0; err = none }))
          (append_assoc (chunks ps) (close_chunks ++ crlf) more)
        ∙ read_all-chunked ps more sizes
            (short_pieces ps (subst (λ t. length t < 2 ^ 64) (sym f) le))),
)

-- A chunked reply is read back: whatever the handler calls after `WriteHeader` but `Hijack`, behind
-- the header stand an opening, which is nothing where the header is complete, and else the type of a
-- beginning of the content and the header's end, and then a text from which the chunked reader,
-- whatever sizes it asks for and is handed, returns exactly the content that was accepted, shorter
-- than 2^64 bytes, and leaves what follows the reply. No 100 Continue is owed to the client.
pub reply_chunked :
    (date : Bytes) (sizes : ℕ → ℕ) (code : ℕ) (w : Response) (calls : List Call) (content : Bytes)
    → Unsent w
    → (w.expecter && not w.wrote_continue) ≡ false
    → All Keeps calls
    → (write_header date sizes code w).chunking ≡ true
    → content
      ≡ (promise_all true calls
          (start (permits code w) (write_header date sizes code w).content_length)).content
    → length content < 2 ^ 64
    → (reads : ℕ → ℕ × ℕ) (more : Bytes)
    → (v : Response) × (opening : Bytes) × (coding : Bytes) × (perform_all date sizes calls
          (write_header date sizes code w)
        ≡ ok v)
      × Opening content (write_header date sizes code w).need_sniff opening
      × ((finish_request date sizes v).out
          ≡ (write_header date sizes code w).out ++ (opening ++ coding))
      × (read_all (suc (length content)) reads (record { wire = coding ++ more; n = 0; err = none })
          ≡ (record { wire = more; n = 0; err = some eof }, content))
reply_chunked date sizes code w calls content f quiet keeps chunked same le reads more =
    let u = write_header date sizes code w in
    let (v, e, k) = reply_refines date sizes code w calls f quiet keeps in
    let done : Finished true u.need_sniff u.out content (finish_request date sizes v).out =
      subst (λ x. Finished true u.need_sniff u.out x (finish_request date sizes v).out) (sym same)
        (subst
          (λ c.
            Finished c u.need_sniff u.out
              (promise_all c calls (start (permits code w) u.content_length)).content
              (finish_request date sizes v).out)
          chunked k) in
    let (opening, coding, o, out, h) =
      Finished-chunked u.need_sniff u.out content (finish_request date sizes v).out reads more done
        le in
    (v, opening, coding, e, o, out, h)
