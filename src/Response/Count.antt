-- ===== src/Response/Count.antt =====
-- The count that `response.Write` (http/server.go) returns.
use go_http.Prelude.{
  ℕ, ◌+◌, ◌-◌, ◌≡◌, refl, ap, ◌∙◌, true, false, ◌&&◌, Bytes, is_empty, length, drop, length-drop,
  arith, if◌then◌else◌, if_true, if_false, Bool-cases, inl, inr, leb, ltb, tests,
}
use go_http.Transfer.{Outcome, ok}
use go_http.Transfer.Writer.{minus_one}
use go_http.Response.{
  Response, exceeds, write, write_header, write_checked, write_text, write_block, body_allowed,
}
use go_http.Response.Promise.{allows}
use go_http.Response.Accepted.{room, write_text-kept, write_text-crossing, write_text-streaming}

-- The count of a write that is taken whole.
abbrev pub reported : Response → Bytes → ℕ
reported w text =
    if w.need_sniff && ltb (room w) (length text) then length text - room w else length text

write_block-count : (text : Bytes) (w : Response) → (write_block text w).1 ≡ ok (length text)
unfolding write_block
write_block-count text w = refl

write_text-count : (text : Bytes) (w : Response) → (write_text text w).1 ≡ ok (reported w text)
write_text-count text w = elim (Bool-cases w.need_sniff) [
  | inl sniffing ↦ elim (Bool-cases (leb (length text) (room w))) [
    | inl fits ↦
        ap (λ x. x.1) (write_text-kept text w sniffing (omega tests)) ∙ ap ok (ground arith)
    | inr over ↦
        ap (λ x. x.1) (write_text-crossing text w sniffing (ground arith))
        ∙ write_block-count (drop (room w) text) _
        ∙ ap ok (length-drop (room w) text ∙ ground arith)
  ]
  | inr done ↦
      ap (λ x. x.1) (write_text-streaming text w done)
      ∙ write_block-count text w
      ∙ ap ok (ground arith)
]

module _ (w : Response) (live : w.hijacked ≡ false) (wrote : w.wrote_header ≡ true)
    (allowed : allows w ≡ true) (unlimited : w.content_length ≡ minus_one) where
  write_header-again :
      (date : Bytes) (sizes : ℕ → ℕ) (code : ℕ) → write_header date sizes code w ≡ w
  unfolding write_header
  write_header-again date sizes code =
      if_false w.hijacked _ _ live ∙ if_true w.wrote_header _ _ wrote

  body_allowed-ok : body_allowed w ≡ ok true
  unfolding body_allowed
  body_allowed-ok = rw (wrote, allowed)

  write_checked-open :
      (text : Bytes)
      → is_empty text ≡ false
      → write_checked text w ≡ write_text text (record w { written = w.written + length text })
  unfolding write_checked
  write_checked-open text ne =
      let fits : exceeds w.content_length (w.written + length text) ≡ false =
        ap (λ n. exceeds n (w.written + length text)) unlimited in
      rw (ne, body_allowed-ok, fits)

  write-open :
      (date : Bytes) (sizes : ℕ → ℕ) (text : Bytes)
      → is_empty text ≡ false
      → write date sizes text w ≡ write_text text (record w { written = w.written + length text })
  unfolding write
  write-open date sizes text ne =
      if_false w.hijacked _ _ live
      ∙ ap (λ u. write_checked text u) (write_header-again date sizes 200)
      ∙ write_checked-open text ne

-- On a response whose header is written, with a body allowed and no length declared, a write that
-- is not empty succeeds and reports all its bytes, unless it fills the sniff buffer and goes on: then
-- the bytes that went to the buffer are missing from the count.
pub write_count :
    (date : Bytes) (sizes : ℕ → ℕ) (text : Bytes) (w : Response)
    → w.hijacked ≡ false
    → w.wrote_header ≡ true
    → allows w ≡ true
    → w.content_length ≡ minus_one
    → is_empty text ≡ false
    → (write date sizes text w).1 ≡ ok (reported w text)
write_count date sizes text w live wrote allowed unlimited ne =
    ap (λ (x : Response × Outcome ℕ). x.1)
      (write-open w live wrote allowed unlimited date sizes text ne)
    ∙ write_text-count text (record w { written = w.written + length text })
