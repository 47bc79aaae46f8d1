-- ===== src/Transfer.antt =====
-- http/transfer.go: how the body of a message is framed. `Transfer.Writer` holds the transferWriter,
-- `Transfer.Reader` readTransfer and its helpers, `Transfer.Body` the body that a reader gets.
pub mod Writer
pub mod Reader
pub mod Body
pub mod Sanitized
pub mod Sent
pub mod Closing
pub mod RoundTrip
pub mod Framing
pub mod Announced
pub mod Found
pub mod Requests
mod Tests
use go_http.Prelude.{
  ℕ, zero, suc, ◌+◌, Bool, true, false, ◌&&◌, ◌||◌, List, [], ◌∷◌, Option, none, some, Bytes, codes,
  str_eq, within, ltb, leb, ◌==◌, if◌then◌else◌,
}
use go_http.Errors.{Error}

-- What a call returns: a value, an error, or a panic.
pub data Outcome {ℓ} (A : Type ℓ) : Type ℓ where
  ok : A → Outcome A
  err : Error → Outcome A
  panics : Outcome A

infixl 5 ◌>>=◌
abbrev pub ◌>>=◌ {ℓ κ} : {A : Type ℓ} {B : Type κ} → Outcome A → (A → Outcome B) → Outcome B
ok a >>= f = f a
err e >>= f = err e
panics >>= f = panics

-- `chunked`
unfoldable pub chunked : List Bytes → Bool
chunked [] = false
chunked (e ∷ es) = str_eq e (codes "chunked")

-- `isIdentity`
unfoldable pub is_identity : List Bytes → Bool
is_identity (e ∷ []) = str_eq e (codes "identity")
is_identity _ = false

-- `noBodyExpected`
unfoldable pub no_body_expected : Bytes → Bool
no_body_expected request_method = str_eq request_method (codes "HEAD")

-- `bodyAllowedForStatus`
unfoldable pub body_allowed_for_status : ℕ → Bool
body_allowed_for_status status =
    if within 100 199 status
    then false
    else if status == 204
    then false
    else if status == 304
    then false
    else true

-- `ProtoAtLeast` of a request or a response
unfoldable pub proto_at_least : ℕ → ℕ → ℕ → ℕ → Bool
proto_at_least proto_major proto_minor major minor =
    ltb major proto_major || (proto_major == major && leb minor proto_minor)
