-- ===== src/Redirects/Tests.antt =====
-- A transport that redirects, once and for ever.
use go_http.Prelude.{
  ◌≤◌, ◌≡◌, refl, List, [], ◌∷◌, some, Bytes, codes, str_eq, length, ◌==◌, if◌then◌else◌,
}
use go_http.Header.{get, set, assign, lookup, canonical_header_key, canonical_from}
use go_http.Transfer.{ok}
use go_http.Redirects.{
  UrlOps, RoundTrip, Asked, Reply, Ending, authorize, default_check_redirect,
  do_following_redirects,
}
use go_http.Redirects.Chain.{
  IsFinal, Linked, do_following_redirects_total, do_following_redirects-Linked,
}

-- a URL is its text, with the scheme https if it begins with an s
abbrev scheme_of : Bytes → Bytes
scheme_of [] = codes "http"
scheme_of (c ∷ s) = if c == b's' then codes "https" else codes "http"

-- a text that begins with a u has the user u
abbrev user_of : Bytes → Bytes
user_of [] = []
user_of (c ∷ s) = if c == b'u' then codes "u" else []

abbrev texts : UrlOps Bytes
texts = record {
  parse = λ base t. ok t;
  string = λ u. u;
  scheme = scheme_of;
  raw_userinfo = user_of;
  encode = λ t. t;
}

abbrev home : Asked Bytes
home = record { method = codes "GET"; url = codes "u/"; header = [] }

abbrev to_b : Reply
to_b = record { status_code = 302; header = (codes "Location", codes "b" ∷ []) ∷ [] }

abbrev found_it : Reply
found_it = record { status_code = 200; header = [] }

-- answers the first request with a redirect
abbrev once : RoundTrip Bytes
once [] req = (req, ok to_b)
once (p ∷ ps) req = (req, ok found_it)

once_leaves : (via : List (Asked Bytes)) (r : Asked Bytes) → (once via r).0 ≡ r
once_leaves [] r = refl
once_leaves (p ∷ ps) r = refl

abbrev for_ever : RoundTrip Bytes
for_ever via req = (req, ok to_b)

abbrev at_b : Asked Bytes
at_b = record {
  method = codes "GET";
  url = codes "b";
  header = (codes "Referer", codes "u/" ∷ []) ∷ [];
}

redirected_once :
    do_following_redirects texts 10 default_check_redirect once home
    ≡ some (authorize texts home ∷ at_b ∷ [], Ending.answered found_it)
unfolding do_following_redirects get lookup str_eq canonical_header_key canonical_from
    default_check_redirect set assign
redirected_once = refl

do_following_redirects_total_example :
    (sent : List (Asked Bytes)) × (e : Ending) × (do_following_redirects texts 10
        default_check_redirect for_ever home
      ≡ some (sent, e))
    × (length sent ≤ 10)
do_following_redirects_total_example = do_following_redirects_total texts for_ever home

do_following_redirects-Linked_example :
    (rest : List (Asked Bytes)) × (authorize texts home ∷ at_b ∷ [] ≡ authorize texts home ∷ rest)
    × Linked texts (codes "GET") (authorize texts home) rest
    × IsFinal (Ending.answered found_it)
do_following_redirects-Linked_example =
    do_following_redirects-Linked texts 10 default_check_redirect once home
      (authorize texts home ∷ at_b ∷ []) (Ending.answered found_it)
      (λ next seen. unfold default_check_redirect in refl) once_leaves redirected_once
