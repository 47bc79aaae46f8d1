-- ===== src/Redirects/Chain.antt =====
-- The requests that a client sends when it follows redirects (http/client.go).
use go_http.Prelude.{
  ℕ, zero, suc, ◌+◌, ◌≤◌, ◌≡◌, ◌≢◌, refl, sym, ap, leb, subst, ◌∙◌, inl, inr, false, not, List, [],
  ◌∷◌, ◌++◌, Option, none, some, Bytes, codes, arith, str_eq, is_empty, length, length-append,
  Bool-cases, if_true, if_false, if_intro, append_assoc, if◌then◌else◌,
}
use go_http.Errors.{Error, text_error}
use go_http.Header.{get, set, lookup, assign, canonical_header_key, canonical_from}
use go_http.Transfer.{Outcome, ok, err, panics}
use go_http.Redirects.{
  UrlOps, Asked, Reply, Ending, Visited, Check, RoundTrip, should_redirect, default_check_redirect,
  authorize, next_request, with_referer, send, checked, parsed, received, follow,
  do_following_redirects,
}

-- An end that hands no redirect to the caller.
abbrev pub IsFinal : Ending → Type 0
IsFinal (Ending.answered r) = should_redirect r.status_code ≡ false
IsFinal _ = Unit

module _ {U : Type 0} (urls : UrlOps U) (check : Check U) where
  -- What a turn comes to: a final end, or the next request, if the check lets it.
  data Turned (method : Bytes) (seen : List (Asked U)) (last : Asked U) : Visited U → Type 0 where
    done : (e : Ending) → IsFinal e → Turned method seen last (Visited.ended e)
    onward :
        (url : U) (next : Asked U) (left : List (Asked U))
        → check (next_request urls method last url) seen ≡ ((next, left), none)
        → Turned method seen last (Visited.again left next)

  checked-Turned :
      (method target : Bytes) (seen : List (Asked U)) (last : Asked U) (url : U) (r : Reply)
      (o : (Asked U × List (Asked U)) × Option Error)
      → check (next_request urls method last url) seen ≡ o
      → Turned method seen last (checked urls method r target o)
  unfolding checked
  checked-Turned method target seen last url r ((next, left), none) h = onward url next left h
  checked-Turned method target seen last url r ((next, left), some e) h = done _ tt

  parsed-Turned :
      (method : Bytes) (seen : List (Asked U)) (last : Asked U) (r : Reply) (target : Bytes)
      (o : Outcome U)
      → Turned method seen last (parsed urls check method seen last r target o)
  unfolding parsed
  parsed-Turned method seen last r target panics = done _ tt
  parsed-Turned method seen last r target (err e) = done _ tt
  parsed-Turned method seen last r target (ok url) =
      checked-Turned method target seen last url r (check (next_request urls method last url) seen)
        refl

  received-Turned :
      (method : Bytes) (seen : List (Asked U)) (last : Asked U) (url : Bytes) (o : Outcome Reply)
      → Turned method seen last (received urls check method seen last url o)
  unfolding received
  received-Turned method seen last url panics = done _ tt
  received-Turned method seen last url (err e) = done _ tt
  received-Turned method seen last url (ok r) = elim (Bool-cases (should_redirect r.status_code)) [
    | inl here ↦
        subst (Turned method seen last)
          (sym (if_false (not (should_redirect r.status_code)) _ _ (ground (arith, here))))
          (if_intro (Turned method seen last) (is_empty (get r.header (codes "Location")))
            (done _ tt) (parsed-Turned method seen last _ _ _))
    | inr there ↦
        subst (Turned method seen last)
          (sym (if_true (not (should_redirect r.status_code)) _ _ (ground (arith, there))))
          (done (Ending.answered r) there)
  ]

-- How a request comes behind one that was redirected: its Referer is the text of the other's URL, and
-- none behind https, and its credentials are those of its own URL.
pub record Follows {U : Type 0} (urls : UrlOps U) (method : Bytes) (p q : Asked U) : Type 0 where
  pub same_method : q.method ≡ method
  pub referer :
      get q.header (codes "Referer")
      ≡ (if str_eq (urls.scheme p.url) (codes "https") then [] else urls.string p.url)
  pub credentials : get q.header (codes "Authorization") ≡ (
      if is_empty (urls.raw_userinfo q.url)
      then []
      else codes "Basic " ++ urls.encode (urls.raw_userinfo q.url))

abbrev pub Linked : {U : Type 0} → UrlOps U → Bytes → Asked U → List (Asked U) → Type 0
Linked urls method p [] = Unit
Linked urls method p (q ∷ qs) = Follows urls method p q × Linked urls method q qs

module _ {U : Type 0} (urls : UrlOps U) (method : Bytes) where
  referer-own :
      (p : Asked U)
      → get (with_referer urls p) (codes "Referer")
        ≡ (if str_eq (urls.scheme p.url) (codes "https") then [] else urls.string p.url)
  unfolding with_referer get set lookup assign canonical_header_key canonical_from str_eq
  referer-own p = elim (Bool-cases (str_eq (urls.scheme p.url) (codes "https"))) [
    | inl here ↦ rw here refl
    | inr there ↦ rw there refl
  ]

  no_credentials : (p : Asked U) → get (with_referer urls p) (codes "Authorization") ≡ []
  unfolding with_referer get set lookup assign canonical_header_key canonical_from str_eq
  no_credentials p =
      if_intro (λ h. get h (codes "Authorization") ≡ [])
        (str_eq (urls.scheme p.url) (codes "https")) refl refl

  referer_kept :
      (p : Asked U) (v : Bytes)
      → get (set (with_referer urls p) (codes "Authorization") v) (codes "Referer")
        ≡ get (with_referer urls p) (codes "Referer")
  unfolding with_referer get set lookup assign canonical_header_key canonical_from str_eq
  referer_kept p v =
      if_intro
        (λ h. get (set h (codes "Authorization") v) (codes "Referer") ≡ get h (codes "Referer"))
        (str_eq (urls.scheme p.url) (codes "https")) refl refl

  credentials_set :
      (p : Asked U) (v : Bytes)
      → get (set (with_referer urls p) (codes "Authorization") v) (codes "Authorization") ≡ v
  unfolding with_referer get set lookup assign canonical_header_key canonical_from str_eq
  credentials_set p v =
      if_intro (λ h. get (set h (codes "Authorization") v) (codes "Authorization") ≡ v)
        (str_eq (urls.scheme p.url) (codes "https")) refl refl

  authorize-Follows :
      (p : Asked U) (url : U)
      → Follows urls method p (authorize urls (next_request urls method p url))
  unfolding authorize next_request
  authorize-Follows p url = elim (Bool-cases (is_empty (urls.raw_userinfo url))) [
    | inl here ↦
        subst (Follows urls method p) (sym (if_true (is_empty (urls.raw_userinfo url)) _ _ here))
          (record {
            same_method = refl;
            referer = referer-own p;
            credentials =
                no_credentials p ∙ sym (if_true (is_empty (urls.raw_userinfo url)) _ _ here);
          })
    | inr there ↦
        subst (Follows urls method p) (sym (if_false (is_empty (urls.raw_userinfo url)) _ _ there))
          (record {
            same_method = refl;
            referer = referer_kept p _ ∙ referer-own p;
            credentials =
                credentials_set p _ ∙ sym (if_false (is_empty (urls.raw_userinfo url)) _ _ there);
          })
  ]

-- The loop from one of its turns on, where the transport and the check leave the requests alone.
module _ {U : Type 0} (urls : UrlOps U) (check : Check U) (round_trip : RoundTrip U)
    (checks : (next : Asked U) (seen : List (Asked U)) → (check next seen).0 ≡ (next, seen))
    (trips : (via : List (Asked U)) (r : Asked U) → (round_trip via r).0 ≡ r) (method : Bytes) where
  abbrev pub Sent : List (Asked U) → Asked U → List (Asked U) × Ending → Type 0
  Sent via req (sent, e) =
      (rest : List (Asked U)) × (sent ≡ via ++ (authorize urls req ∷ rest))
      × Linked urls method (authorize urls req) rest
      × IsFinal e

  some_inj : (x y : List (Asked U) × Ending) → some x ≡ some y → x ≡ y
  some_inj x y e = cc

  -- what a check that lets the request through returns
  let_through :
      (next n : Asked U) (seen left : List (Asked U))
      → check next seen ≡ ((n, left), none)
      → ◌≡◌ {A = Asked U × List (Asked U)} (n, left) (next, seen)
  let_through next n seen left e =
      sym (ap (λ (x : (Asked U × List (Asked U)) × Option Error). x.0) e) ∙ checks next seen

  send-last :
      (via : List (Asked U)) (req : Asked U) → (send urls round_trip via req).0 ≡ authorize urls req
  unfolding send
  send-last via req = trips via (authorize urls req)

  follow-Sent :
      (f : ℕ) (via : List (Asked U)) (req : Asked U) (x : List (Asked U) × Ending)
      → follow urls f check round_trip method via req ≡ some x
      → Sent via req x
  unfolding follow
  follow-Sent zero via req x e = absurd (cc)
  follow-Sent (suc f) via req x e =
      by_turn (send urls round_trip via req).0 _ (send-last via req)
        (received-Turned urls check method (via ++ ((send urls round_trip via req).0 ∷ []))
          (send urls round_trip via req).0 (urls.string req.url) (send urls round_trip via req).1)
        (λ seen next. follow-Sent f seen next x) e
    where
      by_turn :
          (last : Asked U) (v : Visited U)
          → last ≡ authorize urls req
          → Turned urls check method (via ++ (last ∷ [])) last v
          → ((seen : List (Asked U)) (next : Asked U)
              → follow urls f check round_trip method seen next ≡ some x
              → Sent seen next x)
          → elim v [
            | Visited.ended e ↦ some (via ++ (last ∷ []), e)
            | Visited.again seen next ↦ follow urls f check round_trip method seen next
          ]
            ≡ some x
          → Sent via req x
      by_turn last v same (done e h) again k =
          subst (Sent via req) (some_inj _ x k) ([], ap (λ q. via ++ (q ∷ [])) same, tt, h)
      by_turn last v same (onward url n left h) again k =
          let next = next_request urls method last url in
          let out = let_through next n (via ++ (last ∷ [])) left h in
          let (rest, e, linked, final) =
            subst (λ (q : Asked U × List (Asked U)). Sent q.1 q.0 x) out (again left n k) in
          let chain : Linked urls method last (authorize urls next ∷ rest) =
            (authorize-Follows urls method last url, linked) in
          (
            authorize urls next ∷ rest,
            e
                ∙ append_assoc via (last ∷ []) (authorize urls next ∷ rest)
                ∙ ap (λ q. via ++ (q ∷ (authorize urls next ∷ rest))) same,
            subst (λ q. Linked urls method q (authorize urls next ∷ rest)) same chain,
            final,
          )

module _ {U : Type 0} (urls : UrlOps U) (round_trip : RoundTrip U) (method : Bytes) where
  -- What the default check lets through is fewer than ten requests, which it leaves alone.
  default_check-cases :
      (next n : Asked U) (seen left : List (Asked U))
      → default_check_redirect next seen ≡ ((n, left), none)
      → (left ≡ seen) × (length seen ≢ 10)
  unfolding default_check_redirect
  default_check-cases next n seen left e = (
    sym (ap (λ (x : (Asked U × List (Asked U)) × Option Error). x.0.1) e),
    (λ full.
        let h : (if leb 10 (length seen)
              then some (text_error (codes "stopped after 10 redirects"))
              else none)
            ≡ none =
          ap (λ (x : (Asked U × List (Asked U)) × Option Error). x.1) e in
        ground (arith, full, h)),
  )

  -- An end within ten requests.
  abbrev pub Ends : Option (List (Asked U) × Ending) → Type 0
  Ends o = (sent : List (Asked U)) × (e : Ending) × (o ≡ some (sent, e)) × (length sent ≤ 10)

  turn-Ends :
      (g : ℕ) (seen : List (Asked U)) (last : Asked U) (v : Visited U)
      → Turned urls default_check_redirect method seen last v
      → length seen + g ≡ 10
      → ((n : ℕ) (left : List (Asked U)) (next : Asked U)
          → g ≡ suc n
          → length left ≡ length seen
          → Ends (follow urls g default_check_redirect round_trip method left next))
      → Ends (elim v [
        | Visited.ended e ↦ some (seen, e)
        | Visited.again left next ↦ follow urls g default_check_redirect round_trip method left next
      ])
  turn-Ends g seen last v (done e h) k again = (seen, e, refl, omega (arith, k))
  turn-Ends zero seen last v (onward url n left h) k again =
      absurd (
        (default_check-cases (next_request urls method last url) n seen left h).1
          (omega (arith, k)))
  turn-Ends (suc g) seen last v (onward url n left h) k again =
      again g left n refl (
        ap (λ l. length l)
          (default_check-cases (next_request urls method last url) n seen left h).0)

  follow-Ends :
      (f : ℕ) (via : List (Asked U)) (req : Asked U)
      → length via + suc f ≡ 10
      → Ends (follow urls (suc f) default_check_redirect round_trip method via req)
  unfolding follow
  follow-Ends zero via req n =
      let last = (send urls round_trip via req).0 in
      let seen = via ++ (last ∷ []) in
      turn-Ends zero seen last _
        (received-Turned urls default_check_redirect method seen last (urls.string req.url)
          (send urls round_trip via req).1)
        (omega (arith, n, length-append via (last ∷ []))) (λ n left next e l. absurd (cc))
  follow-Ends (suc f) via req n =
      let last = (send urls round_trip via req).0 in
      let seen = via ++ (last ∷ []) in
      let k : length seen + suc f ≡ 10 = omega (arith, n, length-append via (last ∷ [])) in
      turn-Ends (suc f) seen last _
        (received-Turned urls default_check_redirect method seen last (urls.string req.url)
          (send urls round_trip via req).1)
        k (λ n left next e l. follow-Ends f left next (omega (arith, k, l)))

-- Following redirects with the default check ends after ten requests at most, whatever the transport
-- answers and makes of the requests, be it an endless ring of redirects.
pub do_following_redirects_total :
    {U : Type 0} (urls : UrlOps U) (round_trip : RoundTrip U) (req : Asked U)
    → (sent : List (Asked U)) × (e : Ending) × (do_following_redirects urls 10
          default_check_redirect round_trip req
        ≡ some (sent, e))
      × (length sent ≤ 10)
unfolding do_following_redirects
do_following_redirects_total urls round_trip req =
    follow-Ends urls round_trip req.method 9 [] req refl

-- When redirects have been followed, with a check and a transport that leave the requests alone, the
-- requests that were sent are the first one and then such that each has the method of the first, the
-- Referer of the URL before it, but none behind https, and no credentials but those of its own URL; and
-- a reply that is returned with no error is no redirect.
pub do_following_redirects-Linked :
    {U : Type 0} (urls : UrlOps U) (f : ℕ) (check : Check U) (round_trip : RoundTrip U)
    (req : Asked U) (sent : List (Asked U)) (e : Ending)
    → ((next : Asked U) (seen : List (Asked U)) → (check next seen).0 ≡ (next, seen))
    → ((via : List (Asked U)) (r : Asked U) → (round_trip via r).0 ≡ r)
    → do_following_redirects urls f check round_trip req ≡ some (sent, e)
    → (rest : List (Asked U)) × (sent ≡ authorize urls req ∷ rest)
      × Linked urls req.method (authorize urls req) rest
      × IsFinal e
unfolding do_following_redirects
do_following_redirects-Linked urls f check round_trip req sent e checks trips h =
    follow-Sent urls check round_trip checks trips req.method f [] req (sent, e) h
