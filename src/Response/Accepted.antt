-- ===== src/Response/Accepted.antt =====
-- `response.Write` (http/server.go) behind its checks: the sniff buffer and the blocks of the body.
use go_http.Prelude.{
  ℕ, ◌-◌, ◌≤◌, ◌<◌, min, ◌≡◌, refl, ap, subst, ◌∙◌, Bool, true, false, [], ◌∷◌, ◌++◌, Bytes,
  is_empty, length, take, drop, arith, if_true, append_assoc, length-append, length-drop,
  take-append-drop, Bool-cases, inl, inr, leb, tests,
}
use go_http.Transfer.{Outcome, ok}
use go_http.Sniff.{sniff_len}
use go_http.Response.{Response, block, sniff, write_text, write_block}
use go_http.Response.Stream.{
  Phase, pending, started, Streamed, streamed, Begun, begun, with_stream, sniff-pending,
  Phase-block,
}

take-length : (xs : Bytes) → take (length xs) xs ≡ xs
take-length [] = refl
take-length (x ∷ xs) = ap (◌∷◌ x) (take-length xs)

drop-length : (xs : Bytes) → drop (length xs) xs ≡ []
drop-length [] = refl
drop-length (x ∷ xs) = drop-length xs

is_empty-length : (xs : Bytes) → 0 < length xs → is_empty xs ≡ false
is_empty-length [] h = absurd (omega arith)
is_empty-length (x ∷ xs) h = refl

length-positive : (xs : Bytes) → is_empty xs ≡ false → 0 < length xs
length-positive [] h = cc
length-positive (x ∷ xs) h = omega arith

-- A write that finds room in the sniff buffer is kept there.
pub write_text-kept :
    (text : Bytes) (w : Response)
    → w.need_sniff ≡ true
    → length text ≤ sniff_len - length w.sniffed
    → write_text text w ≡ (with_stream w true (w.sniffed ++ text) w.out, ok (length text))
unfolding write_text
write_text-kept text w n le =
    let m : min (sniff_len - length w.sniffed) (length text) ≡ length text = omega arith in
    rw (m, n, take-length text, drop-length text)

abbrev pub room : Response → ℕ
room w = sniff_len - length w.sniffed

-- One that does not starts the body with the full buffer, and goes on behind it.
pub write_text-crossing :
    (text : Bytes) (w : Response)
    → w.need_sniff ≡ true
    → room w < length text
    → write_text text w
      ≡ write_block
          (drop (room w) text)
          (sniff (with_stream w w.need_sniff (w.sniffed ++ take (room w) text) w.out))
unfolding write_text
write_text-crossing text w n lt =
    let m : min (sniff_len - length w.sniffed) (length text) ≡ room w = omega arith in
    let ne : is_empty (drop (room w) text) ≡ false =
      is_empty-length _ (omega (arith, length-drop {0} (room w) text)) in
    rw (m, ne) (if_true w.need_sniff _ _ n)

pub write_text-streaming :
    (text : Bytes) (w : Response) → w.need_sniff ≡ false → write_text text w ≡ write_block text w
unfolding write_text
write_text-streaming text w n = rw n

write_block-with :
    (text : Bytes) (w u : Response) (buffer out : Bytes)
    → u ≡ with_stream w false buffer out
    → write_block text u
      ≡ (with_stream w false buffer (out ++ block w.chunking text), ok (length text))
unfolding write_block
write_block-with text w u buffer out e = ap (write_block text) e

-- What a write that is accepted leaves, with the count that it reports.
pub data Accepted (c s : Bool) (base content : Bytes) (w : Response) (r : Response × Outcome ℕ)
    : Type 0 where
  accepted :
      (u : Response) (count : ℕ)
      → r ≡ (u, ok count)
      → Streamed c s base content w u
      → Accepted c s base content w r

write_text-Begun :
    (text : Bytes) (w v : Response) (s : Bool) (base content : Bytes) (r : Response × Outcome ℕ)
    → is_empty text ≡ false
    → Begun w.chunking s base content v (sniff v)
    → (need : Bool) × (buffer : Bytes) × (out : Bytes) × (v ≡ with_stream w need buffer out)
    → r ≡ write_block text (sniff v)
    → Accepted w.chunking s base (content ++ text) w r
write_text-Begun text w v s base content r ne (begun opening ps out e o f p) (need, b, x, same) h =
    let shape : sniff v ≡ with_stream w false v.sniffed out =
      e ∙ ap (λ (y : Response). with_stream y false v.sniffed out) same in
    accepted (with_stream w false v.sniffed (out ++ block w.chunking text)) (length text)
      (h ∙ write_block-with text w (sniff v) v.sniffed out shape)
      (streamed false v.sniffed (out ++ block w.chunking text) refl
        (Phase-block w.chunking s base content opening text v.sniffed out ps ne o f p))

write_text-pending :
    (text : Bytes) (w : Response) (s : Bool) (base content : Bytes)
    → is_empty text ≡ false
    → s ≡ true
    → w.need_sniff ≡ true
    → w.sniffed ≡ content
    → length content ≤ sniff_len
    → w.out ≡ base
    → Accepted w.chunking s base (content ++ text) w (write_text text w)
write_text-pending text w s base content ne t n b le e =
    elim (Bool-cases (leb (length text) (room w))) [
      | inl fits ↦
          let small : length text ≤ room w = omega tests in
          let size : length w.sniffed ≡ length content = ap (λ l. length l) b in
          accepted _ (length text) (write_text-kept text w n small) (
            streamed true (w.sniffed ++ text) w.out refl (
              pending t refl (ap (λ l. l ++ text) b) (omega (arith, length-append {0} content text))
                e))
      | inr over ↦
          let large : room w < length text = ground arith in
          let k = room w in
          let kept : Response = with_stream w w.need_sniff (w.sniffed ++ take k text) w.out in
          subst (λ x. Accepted w.chunking s base x w (write_text text w))
            (ap (λ l. l ++ take k text ++ drop k text) b
              ∙ append_assoc content (take k text) (drop k text)
              ∙ ap (λ l. content ++ l) (take-append-drop k text))
            (write_text-Begun (drop k text) w kept s base (w.sniffed ++ take k text)
              (write_text text w) (is_empty-length _ (omega (arith, length-drop {0} k text)))
              (sniff-pending kept s base t n e)
              (w.need_sniff, w.sniffed ++ take k text, w.out, refl)
              (write_text-crossing text w n large))
    ]

-- A write with room for it is accepted, and the reply stays in phase.
pub write_text-Accepted :
    (text : Bytes) (w : Response) (s : Bool) (base content : Bytes)
    → is_empty text ≡ false
    → Phase w.chunking s base content w.need_sniff w.sniffed w.out
    → Accepted w.chunking s base (content ++ text) w (write_text text w)
write_text-Accepted text w s base content ne (pending t n b le e) =
    write_text-pending text w s base content ne t n b le e
write_text-Accepted text w s base content ne (started opening ps n o f e) =
    accepted _ (length text)
      (write_text-streaming text w n
        ∙ write_block-with text w w w.sniffed w.out (ap (λ b. with_stream w b w.sniffed w.out) n))
      (streamed false w.sniffed (w.out ++ block w.chunking text) refl
        (Phase-block w.chunking s base content opening text w.sniffed w.out ps ne o f e))
