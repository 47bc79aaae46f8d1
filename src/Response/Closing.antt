-- ===== src/Response/Closing.antt =====
-- A reply that has no length and is marked to close the connection (http/server.go) does so, whatever
-- is called in between, unless the handler changes the header behind WriteHeader.
use go_http.Prelude.{
  ℕ, ◌+◌, ◌≡◌, refl, sym, ap, subst, ◌∙◌, Bool, true, false, not, ◌&&◌, List, [], ◌∷◌, Bytes, codes,
  is_empty, length, flatten, Option, none, some, arith, if_intro, if_true, if_false, All, str_eq,
  ◌==◌, if◌then◌else◌,
}
use go_http.Errors.{Error, short_write}
use go_http.Header.{get}
use go_http.Transfer.{Outcome, ok, err, panics, ◌>>=◌}
use go_http.Requests.{wants_http10_keep_alive}
use go_http.Response.{
  Response, write_header, write, write_checked, write_text, write_block, sniff, read_body,
  close_body, request_too_large, exceeds, body_allowed,
}
use go_http.Response.Calls.{
  Call, perform, perform_all, written_of, read_of, read_from, read_rest, copy, flush, ensure_header,
  finish_request, restore_keep_alive, end_chunks, close_if_short,
}

pub record Shut (w : Response) : Type 0 where
  pub wrote : w.wrote_header ≡ true
  pub live : w.hijacked ≡ false
  pub closing : w.close_after_reply ≡ true
  pub unsized : get w.header (codes "Content-Length") ≡ []

-- A step on the stream alone.
Shut-stream :
    (w : Response) (total : ℕ) (need : Bool) (buffer out : Bytes)
    → Shut w
    → Shut (record w { written = total; need_sniff = need; sniffed = buffer; out = out })
Shut-stream w total need buffer out h = record {
  wrote = h.wrote;
  live = h.live;
  closing = h.closing;
  unsized = h.unsized;
}

sniff-Shut : (w : Response) → Shut w → Shut (sniff w)
unfolding sniff
sniff-Shut w h = if_intro Shut (not w.need_sniff) h (Shut-stream w w.written false w.sniffed _ h)

write_block-Shut : (text : Bytes) (w : Response) → Shut w → Shut (write_block text w).0
unfolding write_block
write_block-Shut text w h = Shut-stream w w.written w.need_sniff w.sniffed _ h

-- the response of a result
abbrev First : Response × Outcome ℕ → Type 0
First r = Shut r.0

write_text-Shut : (text : Bytes) (w : Response) → Shut w → First (write_text text w)
unfolding write_text
write_text-Shut text w h =
    if_intro First w.need_sniff
      (if_intro First _ (Shut-stream w w.written w.need_sniff _ w.out h)
        (write_block-Shut _ _ (sniff-Shut _ (Shut-stream w w.written w.need_sniff _ w.out h))))
      (write_block-Shut text w h)

write_checked-Shut : (text : Bytes) (w : Response) → Shut w → First (write_checked text w)
unfolding write_checked
write_checked-Shut text w h = if_intro First (is_empty text) h (by_test (body_allowed w))
  where
    counted : Shut (record w { written = w.written + length text })
    counted = Shut-stream w (w.written + length text) w.need_sniff w.sniffed w.out h

    by_test :
        (o : Outcome Bool)
        → First (elim o [
          | panics ↦ (w, panics)
          | err e ↦ (w, err e)
          | ok allowed ↦
              if not allowed
              then (w, err go_http.Response.body_not_allowed)
              else if exceeds w.content_length (w.written + length text)
              then (
                record w { written = w.written + length text },
                err go_http.Response.content_length_error,
              )
              else write_text text (record w { written = w.written + length text })
        ])
    by_test panics = h
    by_test (err e) = h
    by_test (ok allowed) = if_intro First (not allowed) h (
        if_intro First (exceeds w.content_length (w.written + length text)) counted
          (write_text-Shut text _ counted))

write_header-Shut :
    (date : Bytes) (sizes : ℕ → ℕ) (code : ℕ) (w : Response)
    → Shut w
    → write_header date sizes code w ≡ w
unfolding write_header
write_header-Shut date sizes code w h = rw (h.live, h.wrote)

write-Shut :
    (date : Bytes) (sizes : ℕ → ℕ) (text : Bytes) (w : Response)
    → Shut w
    → First (write date sizes text w)
unfolding write
write-Shut date sizes text w h = if_intro First w.hijacked h (
    subst (λ u. First (write_checked text u)) (sym (write_header-Shut date sizes 200 w h))
      (write_checked-Shut text w h))

-- The calls that leave the header map alone.
abbrev pub Untouched : Call → Type 0
Untouched (Call.set_field k v) = ⊥
Untouched (Call.add_field k v) = ⊥
Untouched (Call.del_field k) = ⊥
Untouched Call.hijack_now = ⊥
Untouched _ = Unit

ok_same : (w v : Response) → ok w ≡ ok v → w ≡ v
ok_same w v e = cc

module _ (date : Bytes) (sizes : ℕ → ℕ) where
  copy-Shut : (ps : List Bytes) (w : Response) → Shut w → Shut (copy date sizes ps w).0
  unfolding copy
  copy-Shut [] w h = h
  copy-Shut (p ∷ ps) w h =
      by_write (write date sizes p w) (write-Shut date sizes p w h) (λ u k. copy-Shut ps u k)
    where
      by_write :
          (r : Response × Outcome ℕ)
          → First r
          → ((u : Response) → Shut u → Shut (copy date sizes ps u).0)
          → Shut
              (elim r.1 as (λ x. Response × Option Error) [
                | panics ↦ (r.0, none)
                | err e ↦ (r.0, some e)
                | ok n ↦ if n == length p then copy date sizes ps r.0 else (r.0, some short_write)
              ]).0
      by_write (u, panics) k again = k
      by_write (u, err e) k again = k
      by_write (u, ok n) k again =
          if_intro (λ (x : Response × Option Error). Shut x.0) (n == length p) (again u k) k

  read_rest-Shut :
      (direct : Bool) (pieces : List Bytes) (v : Response)
      → Shut v
      → Shut (read_rest date sizes direct pieces v).0
  unfolding read_rest
  read_rest-Shut direct pieces v h =
      if_intro (λ (x : Response × Option Error). Shut x.0) _
        (Shut-stream v (v.written + length (flatten pieces)) v.need_sniff v.sniffed _ h)
        (copy-Shut pieces v h)

  ensure_header-Shut : (w : Response) → Shut w → ensure_header date sizes w ≡ w
  unfolding ensure_header
  ensure_header-Shut w h = if_true w.wrote_header _ _ h.wrote

  abbrev Result : Outcome Response → Type 0
  Result (ok v) = Shut v
  Result _ = Unit

  written-Result : (r : Response × Outcome ℕ) → First r → Result (written_of r)
  written-Result (u, ok n) h = h
  written-Result (u, err e) h = h
  written-Result (u, panics) h = tt

  perform-Result :
      (c : Call) (w : Response) → Untouched c → Shut w → Result (perform date sizes c w)
  unfolding perform flush read_from read_body close_body request_too_large
  perform-Result (Call.set_field k v) w p h = absurd p
  perform-Result (Call.add_field k v) w p h = absurd p
  perform-Result (Call.del_field k) w p h = absurd p
  perform-Result (Call.reply code) w p h =
      subst Shut (sym (write_header-Shut date sizes code w h)) h
  perform-Result (Call.body text) w p h = written-Result _ (write-Shut date sizes text w h)
  perform-Result Call.flush_now w p h =
      if_intro Result w.hijacked tt
        (subst (λ u. Shut (sniff u)) (sym (ensure_header-Shut w h)) (sniff-Shut w h))
  perform-Result Call.hijack_now w p h = absurd p
  perform-Result (Call.read_request size give) w p h =
      if_intro (λ (x : Response × Bytes × Option Error). Shut x.0) (w.expecter && w.reader_closed) h
        (if_intro
          (λ (x : Response). Shut (record x {
            req = record w.req { body = (go_http.Transfer.Body.read w.req.body size give).0 };
          }))
          (w.expecter && (not w.wrote_continue && not w.hijacked))
          (record { wrote = h.wrote; live = h.live; closing = h.closing; unsized = h.unsized })
          (record { wrote = h.wrote; live = h.live; closing = h.closing; unsized = h.unsized }))
  perform-Result Call.close_request w p h = record {
    wrote = h.wrote;
    live = h.live;
    closing = h.closing;
    unsized = h.unsized;
  }
  perform-Result (Call.source direct pieces) w p h =
      subst (λ o. Result (read_of (o >>= λ v. ok (read_rest date sizes direct pieces v))))
        (sym (if_false w.hijacked _ _ h.live ∙ ap (λ u. ok (sniff u)) (ensure_header-Shut w h)))
        (read_rest-Shut direct pieces (sniff w) (sniff-Shut w h))
  perform-Result Call.exceed_limit w p h = record {
    wrote = h.wrote;
    live = h.live;
    closing = refl;
    unsized =
        ap (λ x. get x (codes "Content-Length")) (if_true w.wrote_header _ _ h.wrote) ∙ h.unsized;
  }

  pub perform_all-Shut :
      (calls : List Call) (w v : Response)
      → All Untouched calls
      → Shut w
      → perform_all date sizes calls w ≡ ok v
      → Shut v
  unfolding perform_all
  perform_all-Shut [] w v p h e = subst Shut (ok_same w v e) h
  perform_all-Shut (c ∷ cs) w v p h e =
      by_call (perform date sizes c w) (perform-Result c w p.0 h) e
        (λ u k f. perform_all-Shut cs u v p.1 k f)
    where
      by_call :
          (o : Outcome Response)
          → Result o
          → (o >>= perform_all date sizes cs) ≡ ok v
          → ((u : Response) → Shut u → perform_all date sizes cs u ≡ ok v → Shut v)
          → Shut v
      by_call (ok u) k f again = again u k f
      by_call (err x) k f again = absurd (cc)
      by_call panics k f again = absurd (cc)

  restore-Shut : (w : Response) → Shut w → restore_keep_alive w ≡ w
  unfolding restore_keep_alive
  restore-Shut w h =
      if_false
        (wants_http10_keep_alive w.req
          && (not (is_empty (get w.header (codes "Content-Length")))
              && str_eq (get w.header (codes "Connection")) (codes "keep-alive")))
        (record w { close_after_reply = false }) w (ground (arith, ap is_empty h.unsized))

  pub finish_request-closes :
      (w : Response) → Shut w → (finish_request date sizes w).close_after_reply ≡ true
  unfolding finish_request close_if_short end_chunks close_body
  finish_request-closes w h =
      let same : ensure_header date sizes (restore_keep_alive w) ≡ w =
        ap (ensure_header date sizes) (restore-Shut w h) ∙ ensure_header-Shut w h in
      let u = end_chunks (sniff (ensure_header date sizes (restore_keep_alive w))) in
      let k : u.close_after_reply ≡ true =
        ap (λ x. (end_chunks (sniff x)).close_after_reply) same
        ∙ if_intro (λ (x : Response). x.close_after_reply ≡ true) (sniff w).chunking
            (sniff-Shut w h).closing (sniff-Shut w h).closing in
      if_intro (λ (x : Response). x.close_after_reply ≡ true) _ refl
        (if_intro (λ (x : Response). x.close_after_reply ≡ true) u.close_after_reply k k)
