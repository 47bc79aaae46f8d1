-- ===== src/Redirects.antt =====
-- http/client.go: `Client.Do`, with the loop of `doFollowingRedirects`. Go's packages "url" and
-- "base64" are an argument, and so is the RoundTripper, which answers a request by those that it had
-- before, and may change it.
pub mod Chain
mod Tests
use go_http.Prelude.{
  ℕ, zero, suc, Bool, true, false, not, ◌||◌, List, [], ◌∷◌, ◌++◌, Option, none, some, Bytes, codes,
  str_eq, is_empty, to_lower, length, leb, ◌==◌, if◌then◌else◌,
}
use go_http.Int.{pos}
use go_http.Strconv.{itoa64}
use go_http.Errors.{Error, text_error}
use go_http.Header.{Header, get, set}
use go_http.Transfer.{Outcome, ok, err, panics}

-- what the client calls of the package "url", and the encoder of "base64"
pub record UrlOps (U : Type 0) : Type 0 where
  pub parse : U → Bytes → Outcome U
  pub string : U → Bytes
  pub scheme : U → Bytes
  pub raw_userinfo : U → Bytes
  pub encode : Bytes → Bytes

-- the fields of a `Request` that the client sets and reads
pub record Asked (U : Type 0) : Type 0 where
  pub method : Bytes
  pub url : U
  pub header : Header

-- the fields of a `Response` that the client reads
pub record Reply : Type 0 where
  pub status_code : ℕ
  pub header : Header

-- How a call ends: with a reply, with the RoundTripper's error, with a `url.Error` of an operation, a
-- URL and a cause, beside which the last reply is returned, if there is one, or with a panic.
pub data Ending : Type 0 where
  answered : Reply → Ending
  failed : Error → Ending
  stopped : Option Reply → Bytes → Bytes → Error → Ending
  crashed : Ending

-- What one turn of the loop comes to: the end, or the next request with those that were sent before,
-- as the check has left them.
pub data Visited (U : Type 0) : Type 0 where
  ended : Ending → Visited U
  again : List (Asked U) → Asked U → Visited U

-- `CheckRedirect`, which gets pointers: the next request and those that were sent, as it leaves them,
-- and its verdict
abbrev pub Check : Type 0 → Type 0
Check U = Asked U → List (Asked U) → (Asked U × List (Asked U)) × Option Error

-- a RoundTripper: the request as it leaves it, and the reply
abbrev pub RoundTrip : Type 0 → Type 0
RoundTrip U = List (Asked U) → Asked U → Asked U × Outcome Reply

-- `shouldRedirect`
unfoldable pub should_redirect : ℕ → Bool
should_redirect code = code == 301 || code == 302 || code == 303 || code == 307

-- `defaultCheckRedirect`
unfoldable pub default_check_redirect : {U : Type 0} → Check U
default_check_redirect req via = (
  (req, via),
  if leb 10 (length via) then some (text_error (codes "stopped after 10 redirects")) else none,
)

-- the operation of a `url.Error`; the methods that get here are GET and HEAD
unfoldable pub error_op : Bytes → Bytes
error_op [] = []
error_op (c ∷ method) = c ∷ to_lower method

abbrev ending : Outcome Reply → Ending
ending (ok r) = Ending.answered r
ending (err e) = Ending.failed e
ending panics = Ending.crashed

module _ {U : Type 0} (urls : UrlOps U) where
  -- the header that `send` adds to
  unfoldable pub authorize : Asked U → Asked U
  authorize req = if is_empty (urls.raw_userinfo req.url) then req else record req {
    header =
        set req.header (codes "Authorization")
          (codes "Basic " ++ urls.encode (urls.raw_userinfo req.url));
  }

  -- the header of the next request, behind `last`
  unfoldable pub with_referer : Asked U → Header
  with_referer last =
      if str_eq (urls.scheme last.url) (codes "https")
      then []
      else set [] (codes "Referer") (urls.string last.url)

  -- the next request
  unfoldable pub next_request : Bytes → Asked U → U → Asked U
  unfolding with_referer
  next_request method last url = record { method = method; url = url; header = with_referer last }

  -- `send`
  unfoldable pub send : RoundTrip U → List (Asked U) → Asked U → Asked U × Outcome Reply
  unfolding authorize
  send round_trip via req = round_trip via (authorize req)

  -- the error of a reply that redirects to nowhere
  unfoldable pub missing_location : ℕ → Error
  missing_location code =
      text_error (itoa64 (pos code) ++ codes " response missing Location header")

  -- behind the check of the next request; `r` is the last reply
  unfoldable pub checked :
      Bytes → Reply → Bytes → (Asked U × List (Asked U)) × Option Error → Visited U
  unfolding error_op
  checked method r target ((next, seen), none) = again seen next
  checked method r target ((next, seen), some e) =
      ended (Ending.stopped (some r) (error_op method) target e)

  -- behind the parse of the location; `seen` are the requests that were sent, with `last`
  unfoldable pub parsed :
      Check U → Bytes → List (Asked U) → Asked U → Reply → Bytes → Outcome U → Visited U
  unfolding checked next_request error_op
  parsed check method seen last r target panics = ended Ending.crashed
  parsed check method seen last r target (err e) =
      ended (Ending.stopped (some r) (error_op method) target e)
  parsed check method seen last r target (ok url) =
      checked method r target (check (next_request method last url) seen)

  -- behind the reply; `url` is the text of the URL that was asked for
  unfoldable pub received :
      Check U → Bytes → List (Asked U) → Asked U → Bytes → Outcome Reply → Visited U
  unfolding parsed should_redirect missing_location error_op
  received check method seen last url panics = ended Ending.crashed
  received check method seen last url (err e) = ended (Ending.stopped none (error_op method) url e)
  received check method seen last url (ok r) =
      let target = get r.header (codes "Location") in
      if not (should_redirect r.status_code)
      then ended (Ending.answered r)
      else if is_empty target
      then ended (Ending.stopped (some r) (error_op method) [] (missing_location r.status_code))
      else parsed check method seen last r target (urls.parse last.url target)

  -- The loop, on fuel, from the requests that were sent before and the next one: the requests that
  -- were sent in the end, and how it ended.
  unfoldable pub follow :
      ℕ
      → Check U
      → RoundTrip U
      → Bytes
      → List (Asked U)
      → Asked U
      → Option (List (Asked U) × Ending)
  unfolding send received
  follow zero check round_trip method via req = none
  follow (suc f) check round_trip method via req =
      let (last, o) = send round_trip via req in
      let seen = via ++ (last ∷ []) in
      elim (received check method seen last (urls.string req.url) o) [
        | ended e ↦ some (seen, e)
        | again seen' next ↦ follow f check round_trip method seen' next
      ]

  -- `doFollowingRedirects`
  unfoldable pub do_following_redirects :
      ℕ → Check U → RoundTrip U → Asked U → Option (List (Asked U) × Ending)
  unfolding follow
  do_following_redirects f check round_trip req = follow f check round_trip req.method [] req

  -- `Client.Do`
  unfoldable pub perform_request :
      ℕ → Check U → RoundTrip U → Asked U → Option (List (Asked U) × Ending)
  unfolding do_following_redirects send
  perform_request f check round_trip req =
      let (last, o) = send round_trip [] req in
      if str_eq req.method (codes "GET") || str_eq req.method (codes "HEAD")
      then do_following_redirects f check round_trip req
      else some (last ∷ [], ending o)
