-- ===== src/Response/Copied.antt =====
-- `response.ReadFrom` (http/server.go): a source, against the promise of a ResponseWriter.
use go_http.Prelude.{
  ℕ, ◌+◌, ◌≡◌, refl, sym, ap, subst, ◌∙◌, Bool, true, false, not, ◌&&◌, List, [], ◌∷◌, ◌++◌, Bytes,
  is_empty, flatten, Option, none, some, length, arith, append-nil, append_assoc, Bool-cases, inl,
  inr, if_true, if_false, ◌==◌, if◌then◌else◌,
}
use go_http.Errors.{Error, short_write}
use go_http.Transfer.{Outcome, ok, err, panics, ◌>>=◌}
use go_http.Response.{
  Response, exceeds, write, write_checked, write_block, sniff, body_not_allowed,
  content_length_error, body_allowed,
}
use go_http.Response.Calls.{copy, read_rest, read_from, read_of, is_allowed}
use go_http.Response.Stream.{Phase, pending, started, Opening-append, coded-append}
use go_http.Response.Accepted.{write_text-streaming}
use go_http.Response.Promise.{
  Promise, promise_write, promise_copy, promise_source, takes, Refines, Refines-streamed,
  write-checked, write_checked-refused, write_checked-forbidden, write_checked-open,
  body_allowed-ok, flush-again, Refines-sniff,
}
use go_http.Response.Written.{
  promise_write-over, promise_write-fits, promise_write-forbidden, promise_write-nothing, kept,
  refused, write_text-Kept,
}

copy_goes :
    (date : Bytes) (sizes : ℕ → ℕ) (p : Bytes) (ps : List Bytes) (w u : Response)
    → write date sizes p w ≡ (u, ok (length p))
    → copy date sizes (p ∷ ps) w ≡ copy date sizes ps u
unfolding copy
copy_goes date sizes p ps w u e =
    ap
      (λ (r : Response × Outcome ℕ). elim r.1 [
        | panics ↦ (r.0, none)
        | err x ↦ (r.0, some x)
        | ok n ↦ if n == length p then copy date sizes ps r.0 else (r.0, some short_write)
      ])
      e
    ∙ if_true (length p == length p) _ _ (ground arith)

copy_stops :
    (date : Bytes) (sizes : ℕ → ℕ) (p : Bytes) (ps : List Bytes) (w u : Response) (x : Error)
    → write date sizes p w ≡ (u, err x)
    → copy date sizes (p ∷ ps) w ≡ (u, some x)
unfolding copy
copy_stops date sizes p ps w u x e =
    ap
      (λ (r : Response × Outcome ℕ). elim r.1 [
        | panics ↦ (r.0, none)
        | err x ↦ (r.0, some x)
        | ok n ↦ if n == length p then copy date sizes ps r.0 else (r.0, some short_write)
      ])
      e

-- A response whose body has begun.
record Flowing (c s : Bool) (base : Bytes) (p : Promise) (w : Response) : Type 0 where
  refines : Refines c s base p w
  sniffed_out : w.need_sniff ≡ false

copy_takes :
    (text : Bytes) (ts : List Bytes) (p : Promise)
    → takes text p ≡ true
    → promise_copy (text ∷ ts) p ≡ promise_copy ts (promise_write text p)
unfolding promise_copy
copy_takes text ts p h = if_true (takes text p) _ _ h

copy_leaves :
    (text : Bytes) (ts : List Bytes) (p : Promise)
    → takes text p ≡ false
    → promise_copy (text ∷ ts) p ≡ promise_write text p
unfolding promise_copy
copy_leaves text ts p h = if_false (takes text p) _ _ h

-- What a write of a text in the middle of a body comes to.
data Passed (c s : Bool) (base text : Bytes) (p : Promise) (r : Response × Outcome ℕ) : Type 0 where
  through :
      (u : Response)
      → takes text p ≡ true
      → r ≡ (u, ok (length text))
      → Flowing c s base (promise_write text p) u
      → Passed c s base text p r
  stuck :
      (u : Response) (e : Error)
      → takes text p ≡ false
      → r ≡ (u, err e)
      → Flowing c s base (promise_write text p) u
      → Passed c s base text p r

clash : (u v : Response) (x : Error) (text : Bytes) → (u, err x) ≡ write_block text v → ⊥
unfolding write_block
clash u v x text e = absurd (cc)

module _ (c s : Bool) (base : Bytes) (p : Promise) (w : Response) (f : Flowing c s base p w) where
  accepted-Passed :
      (text : Bytes)
      → is_empty text ≡ false
      → p.allowed ≡ true
      → exceeds p.limit (p.written + length text) ≡ false
      → Passed c s base text p (write_checked text w)
  accepted-Passed text ne yes' fits =
      let r = f.refines in
      let v : Response = record w { written = p.written + length text } in
      let e : write_checked text w ≡ write_block text v =
        write_checked-open c s base p w r text ne yes' fits
        ∙ write_text-streaming text v f.sniffed_out in
      elim (write_text-Kept c s base p w text r ne) [
        | kept u n h k ↦
            let same : u ≡ (write_block text v).0 =
              ap (λ (x : Response × Outcome ℕ). x.0)
                (sym h ∙ write_text-streaming text v f.sniffed_out) in
            through (write_block text v).0 (ground (arith, yes', fits)) (unfold write_block in e)
              (record {
                refines =
                    subst (λ q. Refines c s base q (write_block text v).0)
                      (sym (promise_write-fits text p yes' fits))
                      (subst (Refines c s base _) same k);
                sniffed_out = unfold write_block in f.sniffed_out;
              })
        | refused u x h k ↦
            absurd (clash u v x text (sym h ∙ write_text-streaming text v f.sniffed_out))
      ]

  write_checked-Passed : (text : Bytes) → Passed c s base text p (write_checked text w)
  write_checked-Passed [] = through w refl (unfold write_checked in refl) (record {
    refines = subst (λ q. Refines c s base q w) (sym (promise_write-nothing p)) f.refines;
    sniffed_out = f.sniffed_out;
  })
  write_checked-Passed (x ∷ xs) = elim (Bool-cases p.allowed) [
    | inr no' ↦
        stuck w body_not_allowed (ground (arith, no'))
          (write_checked-forbidden c s base p w f.refines (x ∷ xs) refl no')
          (record {
            refines =
                subst (λ q. Refines c s base q w) (sym (promise_write-forbidden (x ∷ xs) p no'))
                  f.refines;
            sniffed_out = f.sniffed_out;
          })
    | inl yes' ↦ elim (Bool-cases (exceeds p.limit (p.written + length (x ∷ xs)))) [
      | inl over ↦
          stuck (record w { written = p.written + length (x ∷ xs) }) content_length_error
            (ground (arith, yes', over))
            (write_checked-refused c s base p w f.refines (x ∷ xs) refl yes' over)
            (record {
              refines =
                  subst
                    (λ q. Refines c s base q (record w { written = p.written + length (x ∷ xs) }))
                    (sym (promise_write-over (x ∷ xs) p yes' over))
                    (Refines-streamed c s base p w f.refines
                      (record p { written = p.written + length (x ∷ xs) })
                      (p.written + length (x ∷ xs)) w.need_sniff w.sniffed w.out refl refl refl
                      f.refines.phase);
              sniffed_out = f.sniffed_out;
            })
      | inr fits ↦ accepted-Passed (x ∷ xs) refl yes' fits
    ]
  ]

module _ (c s : Bool) (base : Bytes) (date : Bytes) (sizes : ℕ → ℕ) where
  copy-Refines :
      (pieces : List Bytes) (p : Promise) (w : Response)
      → Flowing c s base p w
      → Refines c s base (promise_copy pieces p) (copy date sizes pieces w).0
  unfolding promise_copy copy
  copy-Refines [] p w f = f.refines
  copy-Refines (text ∷ ts) p w f =
      let e = write-checked c s base p w f.refines date sizes text in
      elim (write_checked-Passed c s base p w f text) [
        | through u t h k ↦
            subst (λ q. Refines c s base q (copy date sizes (text ∷ ts) w).0)
              (sym (copy_takes text ts p t))
              (subst
                (λ (x : Response × Option Error).
                  Refines c s base (promise_copy ts (promise_write text p)) x.0)
                (sym (copy_goes date sizes text ts w u (e ∙ h)))
                (copy-Refines ts (promise_write text p) u k))
        | stuck u x t h k ↦
            subst (λ q. Refines c s base q (copy date sizes (text ∷ ts) w).0)
              (sym (copy_leaves text ts p t))
              (subst (λ (y : Response × Option Error). Refines c s base (promise_write text p) y.0)
                (sym (copy_stops date sizes text ts w u x (e ∙ h))) k.refines)
      ]

-- A source that is handed to the connection.
Phase-plain :
    (s : Bool) (base content text buffer out : Bytes)
    → Phase false s base content false buffer out
    → Phase false s base (content ++ text) false buffer (out ++ text)
Phase-plain s base content text buffer out (pending t n b le e) = absurd (cc)
Phase-plain s base content text buffer out (started opening ps n o f e) =
    started opening (ps ++ (text ∷ [])) refl (Opening-append content text s opening o)
      (coded-append false ps (text ∷ []) ∙ rw (f, append-nil))
      (rw (e, coded-append false ps (text ∷ []), append-nil)
        (append_assoc base _ _ ∙ ap (λ t. base ++ t) (append_assoc opening _ _)))

direct-Refines :
    (c s : Bool) (base : Bytes) (p : Promise) (w : Response) (text : Bytes)
    → c ≡ false
    → Flowing c s base p w
    → Refines c s base
        (record p { written = p.written + length text; content = p.content ++ text })
        (record w { out = w.out ++ text; written = w.written + length text })
direct-Refines true s base p w text e f = absurd (cc)
direct-Refines false s base p w text e f =
    let start : Phase false s base p.content false w.sniffed w.out =
      subst (λ b. Phase false s base p.content b w.sniffed w.out) f.sniffed_out f.refines.phase in
    Refines-streamed false s base p w f.refines _ (w.written + length text) w.need_sniff w.sniffed
      (w.out ++ text) refl refl (ap (λ n. n + length text) f.refines.counted)
      (subst (λ b. Phase false s base (p.content ++ text) b w.sniffed (w.out ++ text))
        (sym f.sniffed_out) (Phase-plain s base p.content text w.sniffed w.out start))

module _ (c s : Bool) (base : Bytes) (date : Bytes) (sizes : ℕ → ℕ) (direct : Bool)
    (pieces : List Bytes) where
  source_direct :
      (p : Promise)
      → (not c && (p.allowed && direct)) ≡ true
      → promise_source c direct pieces p ≡ record p {
        written = p.written + length (flatten pieces);
        content = p.content ++ flatten pieces;
      }
  unfolding promise_source
  source_direct p h = if_true (not c && (p.allowed && direct)) _ _ h

  source_copied :
      (p : Promise)
      → (not c && (p.allowed && direct)) ≡ false
      → promise_source c direct pieces p ≡ promise_copy pieces p
  unfolding promise_source
  source_copied p h = if_false (not c && (p.allowed && direct)) _ _ h

  read_rest-Refines :
      (p : Promise) (v : Response)
      → Flowing c s base p v
      → Refines c s base (promise_source c direct pieces p) (read_rest date sizes direct pieces v).0
  unfolding read_rest
  read_rest-Refines p v f =
      let test = not v.chunking && (is_allowed (body_allowed v) && not v.need_sniff) && direct in
      let allowed : is_allowed (body_allowed v) ≡ p.allowed =
        ap is_allowed (body_allowed-ok c s base p v f.refines) in
      elim (Bool-cases (not c && (p.allowed && direct))) [
        | inl yes' ↦
            subst (λ q. Refines c s base q (read_rest date sizes direct pieces v).0)
              (sym (source_direct p yes'))
              (subst
                (λ (x : Response × Option Error).
                  Refines c s base
                    (record p {
                      written = p.written + length (flatten pieces);
                      content = p.content ++ flatten pieces;
                    })
                    x.0)
                (sym (
                  if_true test _ _
                    (ground (arith, yes', allowed, f.sniffed_out, f.refines.chunking))))
                (direct-Refines c s base p v (flatten pieces) (ground (arith, yes')) f))
        | inr no' ↦
            subst (λ q. Refines c s base q (read_rest date sizes direct pieces v).0)
              (sym (source_copied p no'))
              (subst (λ (x : Response × Option Error). Refines c s base (promise_copy pieces p) x.0)
                (sym (
                  if_false test _ _
                    (ground (arith, no', allowed, f.sniffed_out, f.refines.chunking))))
                (copy-Refines c s base date sizes pieces p v f))
      ]

sniff-off : (w : Response) → (sniff w).need_sniff ≡ false
unfolding sniff
sniff-off w = ground arith

pub read_from-Refines :
    (c s : Bool) (base : Bytes) (p : Promise) (w : Response)
    → Refines c s base p w
    → (date : Bytes) (sizes : ℕ → ℕ) (direct : Bool) (pieces : List Bytes)
    → (u : Response) × (read_of (read_from date sizes direct pieces w) ≡ ok u)
      × Refines c s base (promise_source c direct pieces p) u
unfolding read_from
read_from-Refines c s base p w r date sizes direct pieces = (
  (read_rest date sizes direct pieces (sniff w)).0,
  ap (λ o. read_of (o >>= λ v. ok (read_rest date sizes direct pieces v)))
      (flush-again c s base p w r date sizes),
  read_rest-Refines c s base date sizes direct pieces p (sniff w)
      (record { refines = Refines-sniff c s base p w r; sniffed_out = sniff-off w }),
)
