-- ===== src/Transfer/Sanitized.antt =====
-- What `newTransferWriter` (http/transfer.go) guarantees of its result.
use go_http.Prelude.{
  Bool, true, false, ◌&&◌, [], ◌≡◌, refl, Option, none, some, arith, is_empty, ◌⊎◌, inl, inr,
  Bool-cases,
}
use go_http.Int.{pos}
use go_http.Errors.{nil_body}
use go_http.Transfer.{Outcome, ok, err, panics, ◌>>=◌, chunked, proto_at_least}
use go_http.Transfer.Writer.{
  Message, Sending, request, message, TransferWriter, extracted, from_request, Source, extract,
  guess_length, sanitize_body, sanitize_trailer, sanitize, new_transfer_writer, minus_one,
  is_negative, is_none, is_zero,
}

-- The fields of a transferWriter agree.
pub record IsSanitized (t : TransferWriter) : Type 0 where
  -- a chunked body has no length, and there is one
  pub chunked_length : chunked t.transfer_encoding ≡ true → t.content_length ≡ minus_one
  pub chunked_body : chunked t.transfer_encoding ≡ true → is_none t.body ≡ false
  -- with no body the length is zero, but in the answer to HEAD
  pub no_body : is_none t.body ≡ true → t.response_to_head ≡ false → t.content_length ≡ pos 0
  -- the answer to HEAD has no body, and says how long it would be
  pub head :
      t.response_to_head ≡ true → (is_none t.body ≡ true) × (is_negative t.content_length ≡ false)
  -- there is a trailer behind a chunked body alone
  pub trailer_chunked : is_none t.trailer ≡ false → chunked t.transfer_encoding ≡ true

chunked-nil : chunked [] ≡ false
unfolding chunked
chunked-nil = refl

sanitize-IsSanitized : (at11 : Bool) (t u : TransferWriter) → sanitize at11 t ≡ ok u → IsSanitized u
unfolding sanitize
sanitize-IsSanitized at11 t u e = ground (arith, chunked-nil)

sanitize_old :
    (t u : TransferWriter) → sanitize false t ≡ ok u → chunked u.transfer_encoding ≡ false
unfolding sanitize
sanitize_old t u e = ground (arith, chunked-nil)

-- Whenever `newTransferWriter` returns a writer, its fields agree, and a body is chunked only for
-- HTTP/1.1 and later.
pub new_transfer_writer-IsSanitized :
    (r : Sending) (t : TransferWriter)
    → new_transfer_writer r ≡ ok t
    → IsSanitized t
      × (chunked t.transfer_encoding ≡ true
          → proto_at_least (message r).proto_major (message r).proto_minor 1 1 ≡ true)
unfolding new_transfer_writer
new_transfer_writer-IsSanitized r t e = go (extracted r) e
  where
    at11 : Bool
    at11 = proto_at_least (message r).proto_major (message r).proto_minor 1 1

    modern :
        (b : Bool) (u : TransferWriter)
        → sanitize b u ≡ ok t
        → chunked t.transfer_encoding ≡ true
        → b ≡ true
    modern true u s c = refl
    modern false u s c = absurd (cc (sanitize_old u t s))

    go :
        (o : Outcome TransferWriter)
        → (o >>= sanitize at11) ≡ ok t
        → IsSanitized t × (chunked t.transfer_encoding ≡ true → at11 ≡ true)
    go (ok u) s = (sanitize-IsSanitized at11 u t s, modern at11 u s)
    go (err _) s = absurd (cc)
    go panics s = absurd (cc)

guess_length_head :
    (t : TransferWriter) (o : Option Source)
    → (guess_length t o).response_to_head ≡ t.response_to_head
unfolding guess_length
guess_length_head t none = refl
guess_length_head t (some s) = ground arith

sanitize_some :
    (at11 : Bool) (t : TransferWriter)
    → t.response_to_head ≡ false
    → (u : TransferWriter) × (sanitize at11 t ≡ ok u)
unfolding sanitize
sanitize_some at11 t h = (sanitize_trailer (sanitize_body at11 t), rw h)

from_request_head :
    (m : Message)
    → (is_zero m.content_length ≡ true) ⊎ (is_none m.body ≡ false)
    → (t : TransferWriter) × (from_request m ≡ ok t) × (t.response_to_head ≡ false)
unfolding from_request
from_request_head m h =
    let guessed = guess_length (extract m.method false m) m.body in
    let kept : guessed.response_to_head ≡ false =
      guess_length_head (extract m.method false m) m.body in
    elim (Bool-cases
      (is_empty m.transfer_encoding && proto_at_least m.proto_major m.proto_minor 1 1)) [
        | inl a ↦ (guessed, ground (arith, a, h), kept)
        | inr b ↦ (extract m.method false m, ground (arith, b, h), refl)
      ]

-- A request is refused exactly when it has a length and no body; in all other cases there is a
-- writer.
pub new_transfer_writer_request :
    (m : Message)
    → ((new_transfer_writer (request m) ≡ err (nil_body m.content_length))
        × (is_zero m.content_length ≡ false)
        × (is_none m.body ≡ true))
      ⊎ (((t : TransferWriter) × (new_transfer_writer (request m) ≡ ok t))
          × ((is_zero m.content_length ≡ true) ⊎ (is_none m.body ≡ false)))
unfolding new_transfer_writer
new_transfer_writer_request m = elim (Bool-cases (is_zero m.content_length)) [
  | inl zero_length ↦ inr (accepted (inl zero_length), inl zero_length)
  | inr long ↦ elim (Bool-cases (is_none m.body)) [
    | inl missing ↦ inl (unfold from_request in rw (long, missing), long, missing)
    | inr here ↦ inr (accepted (inr here), inr here)
  ]
]
  where
    accepted :
        (is_zero m.content_length ≡ true) ⊎ (is_none m.body ≡ false)
        → (t : TransferWriter) × (new_transfer_writer (request m) ≡ ok t)
    accepted h =
        let (t, e, head) = from_request_head m h in
        let (u, e') = sanitize_some (proto_at_least m.proto_major m.proto_minor 1 1) t head in
        (u, rw e e')
