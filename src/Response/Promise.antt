-- ===== src/Response/Promise.antt =====
-- What a ResponseWriter (http/server.go) promises of the body: the declared length, the bytes that
-- writes have asked for, and the content that has been accepted. The `response` implements it.
use go_http.Prelude.{
  ℕ, ◌+◌, ◌≡◌, refl, if_intro, if_false, sym, ap, subst, ◌∙◌, Bool, true, false, not, ◌&&◌, ◌||◌,
  List, flatten, [], ◌∷◌, ◌++◌, Bytes, is_empty, length, arith, if◌then◌else◌, ◌==◌, Option,
}
use go_http.Int.{ℤ}
use go_http.Errors.{Error}
use go_http.Header.{Header}
use go_http.Transfer.{ok, err}
use go_http.Transfer.Body
use go_http.Transfer.Body.{Body}
use go_http.Response.{
  Response, exceeds, write_header, write, write_checked, write_text, sniff, read_body, close_body,
  request_too_large, body_allowed, content_length_error, body_not_allowed, is_head,
}
use go_http.Response.Calls.{Call, flush, ensure_header}
use go_http.Response.Stream.{Phase, started, coded, begun, sniff-Begun}

pub record Promise : Type 0 where
  -- no body goes with status 304 or to a HEAD request
  pub allowed : Bool
  pub limit : ℤ
  pub written : ℕ
  pub content : Bytes

-- Where a body is allowed a write is accepted whole, or not at all if the length would be exceeded;
-- it counts either way.
unfoldable pub promise_write : Bytes → Promise → Promise
promise_write text p =
    let total = p.written + length text in
    if not p.allowed
    then p
    else if exceeds p.limit total
    then record p { written = total }
    else record p { written = total; content = p.content ++ text }

-- Whether a write of the text is taken.
abbrev pub takes : Bytes → Promise → Bool
takes text p = is_empty text || (p.allowed && not (exceeds p.limit (p.written + length text)))

-- The pieces of a source are written up to one that is not taken.
unfoldable pub promise_copy : List Bytes → Promise → Promise
unfolding promise_write
promise_copy [] p = p
promise_copy (text ∷ pieces) p =
    let rest = promise_copy pieces (promise_write text p) in
    if takes text p then rest else promise_write text p

-- A source that is handed to the connection is not tested against the length; this needs a reply that
-- is not in chunks.
unfoldable pub promise_source : Bool → Bool → List Bytes → Promise → Promise
unfolding promise_copy
promise_source chunking direct pieces p =
    let text = flatten pieces in
    if not chunking && (p.allowed && direct)
    then record p { written = p.written + length text; content = p.content ++ text }
    else promise_copy pieces p

-- The other calls leave the body alone. The first argument says that the reply is in chunks.
unfoldable pub promise : Bool → Call → Promise → Promise
unfolding promise_source
promise chunking (Call.body text) p = promise_write text p
promise chunking (Call.source direct pieces) p = promise_source chunking direct pieces p
promise chunking _ p = p

unfoldable pub promise_all : Bool → List Call → Promise → Promise
unfolding promise
promise_all chunking [] p = p
promise_all chunking (c ∷ cs) p = promise_all chunking cs (promise chunking c p)

-- The calls that do not take the connection over.
abbrev pub Keeps : Call → Type 0
Keeps Call.hijack_now = ⊥
Keeps _ = Unit

-- The test of `bodyAllowed`.
abbrev pub allows : Response → Bool
allows w = not (w.status == 304) && not (is_head w.req)

-- The header is written; what the response keeps is what is promised, and its
-- stream is in phase. `quiet` says that no 100 Continue is owed to the client any more.
pub record Refines (c s : Bool) (base : Bytes) (p : Promise) (w : Response) : Type 0 where
  pub wrote : w.wrote_header ≡ true
  pub live : w.hijacked ≡ false
  pub allowed : allows w ≡ p.allowed
  pub chunking : w.chunking ≡ c
  pub declared : w.content_length ≡ p.limit
  pub counted : w.written ≡ p.written
  pub quiet : (w.expecter && not w.wrote_continue) ≡ false
  pub phase : Phase c s base p.content w.need_sniff w.sniffed w.out

module _ (c s : Bool) (base : Bytes) (p : Promise) (w : Response) (r : Refines c s base p w) where
  -- The header map, the request's body and the closing marks are no part of it.
  pub Refines-aside :
      (h : Header) (b : Body) (shut closing limit : Bool)
      → Refines c s base p (record w {
        header = h;
        req = record w.req { body = b };
        reader_closed = shut;
        close_after_reply = closing;
        request_body_limit_hit = limit;
      })
  Refines-aside h b shut closing limit = record {
    wrote = r.wrote;
    live = r.live;
    allowed = r.allowed;
    chunking = r.chunking;
    declared = r.declared;
    counted = r.counted;
    quiet = r.quiet;
    phase = r.phase;
  }

  pub Refines-streamed :
      (q : Promise) (total : ℕ) (need : Bool) (buffer out : Bytes)
      → q.allowed ≡ p.allowed
      → q.limit ≡ p.limit
      → total ≡ q.written
      → Phase c s base q.content need buffer out
      → Refines c s base q
          (record w { written = total; need_sniff = need; sniffed = buffer; out = out })
  Refines-streamed q total need buffer out permitted same count phase = record {
    wrote = r.wrote;
    live = r.live;
    allowed = r.allowed ∙ sym permitted;
    chunking = r.chunking;
    declared = r.declared ∙ sym same;
    counted = count;
    quiet = r.quiet;
    phase = phase;
  }

  pub write_header-again :
      (date : Bytes) (sizes : ℕ → ℕ) (code : ℕ) → write_header date sizes code w ≡ w
  unfolding write_header
  write_header-again date sizes code = rw (r.live, r.wrote)

  pub ensure_header-again : (date : Bytes) (sizes : ℕ → ℕ) → ensure_header date sizes w ≡ w
  unfolding ensure_header
  ensure_header-again date sizes = rw r.wrote

  pub body_allowed-ok : body_allowed w ≡ ok p.allowed
  unfolding body_allowed
  body_allowed-ok = rw (r.wrote, r.allowed)

  pub Refines-read : (size give : ℕ) → Refines c s base p (read_body size give w).0
  unfolding read_body
  Refines-read size give =
      let off : (w.expecter && (not w.wrote_continue && not w.hijacked)) ≡ false =
        ground (arith, r.quiet) in
      if_intro (λ (x : Response × Bytes × Option Error). Refines c s base p x.0)
        (w.expecter && w.reader_closed) r
        (rw off (
          Refines-aside w.header (Body.read w.req.body size give).0 w.reader_closed
            w.close_after_reply w.request_body_limit_hit))

  pub Refines-sniff : Refines c s base p (sniff w)
  Refines-sniff =
      elim (sniff-Begun w s base p.content (
        subst (λ x. Phase x s base p.content w.need_sniff w.sniffed w.out) (sym r.chunking)
          r.phase)) [
            | begun opening ps out e o f h ↦
                subst (λ x. Refines c s base p x) (sym e)
                  (Refines-streamed p w.written false w.sniffed out refl refl r.counted (
                    started opening ps refl o f
                      (h ∙ ap (λ x. base ++ (opening ++ coded x ps)) r.chunking)))
          ]

  pub Refines-close : (sizes : ℕ → ℕ) → Refines c s base p (close_body sizes w)
  unfolding close_body
  Refines-close sizes = Refines-aside _ _ _ _ _

  pub Refines-large : Refines c s base p (request_too_large w)
  unfolding request_too_large
  Refines-large = Refines-aside _ _ _ _ _

  pub flush-again : (date : Bytes) (sizes : ℕ → ℕ) → flush date sizes w ≡ ok (sniff w)
  unfolding flush
  flush-again date sizes =
      if_false w.hijacked _ _ r.live ∙ ap (λ x. ok (sniff x)) (ensure_header-again date sizes)

  pub write-checked :
      (date : Bytes) (sizes : ℕ → ℕ) (text : Bytes) → write date sizes text w ≡ write_checked text w
  unfolding write
  write-checked date sizes text =
      if_false w.hijacked _ _ r.live
      ∙ ap (λ u. write_checked text u) (write_header-again date sizes 200)

  pub write_checked-refused :
      (text : Bytes)
      → is_empty text ≡ false
      → p.allowed ≡ true
      → exceeds p.limit (p.written + length text) ≡ true
      → write_checked text w
        ≡ (record w { written = p.written + length text }, err content_length_error)
  unfolding write_checked
  write_checked-refused text ne yes' over =
      rw (ne, body_allowed-ok, yes', r.declared, r.counted, over)

  pub write_checked-forbidden :
      (text : Bytes)
      → is_empty text ≡ false
      → p.allowed ≡ false
      → write_checked text w ≡ (w, err body_not_allowed)
  unfolding write_checked
  write_checked-forbidden text ne no' = rw (ne, body_allowed-ok, no')

  pub write_checked-open :
      (text : Bytes)
      → is_empty text ≡ false
      → p.allowed ≡ true
      → exceeds p.limit (p.written + length text) ≡ false
      → write_checked text w ≡ write_text text (record w { written = p.written + length text })
  unfolding write_checked
  write_checked-open text ne yes' fits = rw (ne, body_allowed-ok, yes', r.declared, r.counted, fits)
