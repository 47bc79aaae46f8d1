-- ===== src/Response/Framing.antt =====
-- How `response.WriteHeader` (http/server.go) delimits the body of the reply: a reply that leaves
-- the connection open says where its body ends.
use go_http.Prelude.{
  ℕ, ◌≡◌, ◌≢◌, List, All, refl, sym, ap, subst, ◌∙◌, Bool, true, false, ◌||◌, [], Option, none,
  some, Bytes, codes, str_eq, upper, lower, arith, if_true, if_false, Bool-cases, inl, inr, ◌==◌,
}
use go_http.Int.{ℤ}
use go_http.Header
use go_http.Header.{Header, get, del, canonical_header_key, canonical_from}
use go_http.Header.Maps.{get_laws}
use go_http.Strconv.{atoi64}
use go_http.Requests.{at_least}
use go_http.Transfer.{ok}
use go_http.Transfer.Writer.{minus_one, equal_ℤ}
use go_http.Response.{
  Response, choose_frame, frame, framed, keep_alive, close_if_asked, drop_length, write_head,
  write_header, explicit_length, agreed_length, is_head, is_some,
}
use go_http.Response.Calls.{Call, perform_all, finish_request}
use go_http.Response.Closing.{Untouched, perform_all-Shut, finish_request-closes}
use go_http.Response.Lengths.{equal_ℤ-eq}
use go_http.Response.Head.{
  sent, write_header-Sent, Unsent, settle, framed-settle, prepared, Prepared, prepared_as,
  prepared-Prepared, write_header-framed, write_head-out,
}

abbrev length_key : Bytes
length_key = codes "Content-Length"

abbrev encoding_key : Bytes
encoding_key = codes "Transfer-Encoding"

module _ (h : Header) where
  get-del_length : get (del h length_key) length_key ≡ []
  unfolding str_eq canonical_header_key canonical_from upper lower
  get-del_length = (get_laws h length_key length_key []).1

  get-del_encoding : get (del h encoding_key) encoding_key ≡ []
  unfolding str_eq canonical_header_key canonical_from upper lower
  get-del_encoding = (get_laws h encoding_key encoding_key []).1

  get_length-del_encoding : get (del h encoding_key) length_key ≡ get h length_key
  unfolding str_eq canonical_header_key canonical_from upper lower
  get_length-del_encoding = (get_laws h encoding_key length_key []).1

  get_encoding-del_length : get (del h length_key) encoding_key ≡ get h encoding_key
  unfolding str_eq canonical_header_key canonical_from upper lower
  get_encoding-del_length = (get_laws h length_key encoding_key []).1

  get-set_encoding : (v : Bytes) → get (Header.set h encoding_key v) encoding_key ≡ v
  unfolding str_eq canonical_header_key canonical_from upper lower
  get-set_encoding v = (get_laws h encoding_key encoding_key v).0

  get_length-set_connection :
      (v : Bytes) → get (Header.set h (codes "Connection") v) length_key ≡ get h length_key
  unfolding str_eq canonical_header_key canonical_from upper lower
  get_length-set_connection v = (get_laws h (codes "Connection") length_key v).0

  get_encoding-set_connection :
      (v : Bytes) → get (Header.set h (codes "Connection") v) encoding_key ≡ get h encoding_key
  unfolding str_eq canonical_header_key canonical_from upper lower
  get_encoding-set_connection v = (get_laws h (codes "Connection") encoding_key v).0

-- What the settling steps leave alone.
record Same (w u : Response) : Type 0 where
  same_length : get u.header length_key ≡ get w.header length_key
  same_encoding : get u.header encoding_key ≡ get w.header encoding_key
  same_request : u.req ≡ w.req
  same_chunking : u.chunking ≡ w.chunking
  same_content_length : u.content_length ≡ w.content_length
  keeps_closing : w.close_after_reply ≡ true → u.close_after_reply ≡ true

Same-refl : (w : Response) → Same w w
Same-refl w = record {
  same_length = refl;
  same_encoding = refl;
  same_request = refl;
  same_chunking = refl;
  same_content_length = refl;
  keeps_closing = λ e. e;
}

Same-trans : (w u v : Response) → Same w u → Same u v → Same w v
Same-trans w u v r s = record {
  same_length = s.same_length ∙ r.same_length;
  same_encoding = s.same_encoding ∙ r.same_encoding;
  same_request = s.same_request ∙ r.same_request;
  same_chunking = s.same_chunking ∙ r.same_chunking;
  same_content_length = s.same_content_length ∙ r.same_content_length;
  keeps_closing = λ e. s.keeps_closing (r.keeps_closing e);
}

keep_alive-Same : (b : Bool) (w : Response) → Same w (keep_alive b w)
unfolding keep_alive
keep_alive-Same b w = ground (
  arith,
  get_length-set_connection w.header (codes "keep-alive"),
  get_encoding-set_connection w.header (codes "keep-alive"),
)

close_if_asked-Same : (w : Response) → Same w (close_if_asked w)
unfolding close_if_asked
close_if_asked-Same w = ground arith

-- How a reply says where its body ends.
pub data Delimited (w : Response) : Type 0 where
  -- chunked, with no length declared
  in_chunks :
      w.chunking ≡ true
      → w.content_length ≡ minus_one
      → get w.header (codes "Content-Length") ≡ []
      → get w.header (codes "Transfer-Encoding") ≡ codes "chunked"
      → at_least w.req 1 1 ≡ true
      → Delimited w
  -- by the declared length, which is the one that `Write` observes
  by_length :
      w.chunking ≡ false
      → atoi64 (get w.header (codes "Content-Length")) ≡ some w.content_length
      → get w.header (codes "Transfer-Encoding") ≡ []
      → Delimited w
  -- by the end of the connection
  by_closing :
      w.chunking ≡ false
      → w.content_length ≡ minus_one
      → w.close_after_reply ≡ true
      → get w.header (codes "Content-Length") ≡ []
      → Delimited w

-- The frame that is chosen, before the settling steps: the header may still show a length where the
-- reply is chunked.
data Chosen (n : Option ℤ) (w : Response) : Type 0 where
  chosen_chunks :
      n ≡ none
      → w.chunking ≡ true
      → w.content_length ≡ minus_one
      → get w.header encoding_key ≡ codes "chunked"
      → at_least w.req 1 1 ≡ true
      → Chosen n w
  chosen_length :
      w.chunking ≡ false
      → atoi64 (get w.header length_key) ≡ some w.content_length
      → get w.header encoding_key ≡ []
      → Chosen n w
  chosen_closing :
      w.chunking ≡ false
      → w.content_length ≡ minus_one
      → w.close_after_reply ≡ true
      → get w.header length_key ≡ []
      → Chosen n w

frame-Chosen :
    (n : Option ℤ) (w : Response)
    → ((m : ℤ) → n ≡ some m → atoi64 (get w.header length_key) ≡ some m)
    → (n ≡ none → get w.header length_key ≡ [])
    → w.chunking ≡ false
    → w.content_length ≡ minus_one
    → Chosen n (frame n w)
unfolding frame
frame-Chosen (some m) w h z c l =
    chosen_length c (ap atoi64 (get_length-del_encoding w.header) ∙ h m refl)
      (get-del_encoding w.header)
frame-Chosen none w h z c l = elim (Bool-cases (at_least w.req 1 1)) [
  | inl new ↦
      subst (Chosen none) (sym (if_true (at_least w.req 1 1) _ _ new))
        (chosen_chunks refl refl l (get-set_encoding w.header (codes "chunked")) new)
  | inr old ↦
      subst (Chosen none) (sym (if_false (at_least w.req 1 1) _ _ old))
        (chosen_closing c l refl (get_length-del_encoding w.header ∙ z refl))
]

agreed-length :
    (h : Header) (m : ℤ)
    → (agreed_length (explicit_length h)).1 ≡ some m
    → atoi64 (get (agreed_length (explicit_length h)).0 length_key) ≡ some m
unfolding agreed_length explicit_length
agreed-length h m e = ground arith

agreed-none :
    (h : Header)
    → (agreed_length (explicit_length h)).1 ≡ none
    → get (agreed_length (explicit_length h)).0 length_key ≡ []
unfolding agreed_length explicit_length
agreed-none h e = ground (arith, get-del_length h)

drop_length-chunks :
    (w : Response)
    → w.chunking ≡ true
    → drop_length w ≡ record w { header = del w.header length_key }
unfolding drop_length
drop_length-chunks w c = if_true w.chunking _ _ c

drop_length-plain : (w : Response) → w.chunking ≡ false → drop_length w ≡ w
unfolding drop_length
drop_length-plain w c = if_false w.chunking _ _ c

settle-Delimited :
    (n : Option ℤ) (w u : Response) → Chosen n w → Same w u → Delimited (drop_length u)
settle-Delimited n w u (chosen_chunks none' c l te new) s =
    subst Delimited (sym (drop_length-chunks u (s.same_chunking ∙ c))) (
      in_chunks (s.same_chunking ∙ c) (s.same_content_length ∙ l) (get-del_length u.header)
        (get_encoding-del_length u.header ∙ s.same_encoding ∙ te)
        (ap (λ r. at_least r 1 1) s.same_request ∙ new))
settle-Delimited n w u (chosen_length c a te) s =
    subst Delimited (sym (drop_length-plain u (s.same_chunking ∙ c))) (
      by_length (s.same_chunking ∙ c)
        (ap atoi64 s.same_length ∙ a ∙ ap some (sym s.same_content_length)) (s.same_encoding ∙ te))
settle-Delimited n w u (chosen_closing c l k z) s =
    subst Delimited (sym (drop_length-plain u (s.same_chunking ∙ c))) (
      by_closing (s.same_chunking ∙ c) (s.same_content_length ∙ l) (s.keeps_closing k)
        (s.same_length ∙ z))

choose_frame-Chosen :
    (code : ℕ) (w : Response)
    → is_head w.req ≡ false
    → (code == 304) ≡ false
    → w.chunking ≡ false
    → w.content_length ≡ minus_one
    → Chosen (agreed_length (explicit_length w.header)).1 (
        choose_frame code
          (agreed_length (explicit_length w.header)).1
          (record w { header = (agreed_length (explicit_length w.header)).0 }))
unfolding choose_frame
choose_frame-Chosen code w head status c l =
    let r = agreed_length (explicit_length w.header) in
    let v : Response = record w { header = r.0 } in
    subst (Chosen r.1)
      (sym (if_false (is_head w.req || code == 304) v (frame r.1 v) (rw (head, status))))
      (frame-Chosen r.1 v (λ m e. agreed-length w.header m e) (agreed-none w.header) c l)

framed-Delimited :
    (code : ℕ) (w : Response)
    → is_head w.req ≡ false
    → (code == 304) ≡ false
    → w.chunking ≡ false
    → w.content_length ≡ minus_one
    → Delimited (framed code w)
unfolding settle
framed-Delimited code w head status c l =
    let r = agreed_length (explicit_length w.header) in
    let v : Response = choose_frame code r.1 (record w { header = r.0 }) in
    subst Delimited (sym (framed-settle code w)) (
      settle-Delimited r.1 v (close_if_asked (keep_alive (is_some r.1) v))
        (choose_frame-Chosen code w head status c l)
        (Same-trans v (keep_alive (is_some r.1) v) _ (keep_alive-Same (is_some r.1) v)
          (close_if_asked-Same (keep_alive (is_some r.1) v))))

Delimited-put : (w : Response) (out : Bytes) → Delimited w → Delimited (record w { out = out })
Delimited-put w out (in_chunks c l h te new) = in_chunks c l h te new
Delimited-put w out (by_length c a te) = by_length c a te
Delimited-put w out (by_closing c l k z) = by_closing c l k z

write_header-shape :
    (date : Bytes) (sizes : ℕ → ℕ) (code : ℕ) (w : Response)
    → Unsent w
    → is_head w.req ≡ false
    → (code == 304) ≡ false
    → Delimited (write_header date sizes code w)
write_header-shape date sizes code w f head status =
    subst Delimited (sym (write_header-framed date sizes code w f))
      (by_shape (prepared date sizes code w) (prepared-Prepared date sizes code w))
  where
    by_shape : (v : Response) → Prepared code w v → Delimited (write_head code (framed code v))
    by_shape v (prepared_as b shut h need e) =
        let (out, o) = write_head-out code (framed code v) in
        subst Delimited (sym o) (
          Delimited-put (framed code v) out (
            framed-Delimited code v (ap (λ (x : Response). is_head x.req) e ∙ head) status
              (ap (λ (x : Response). x.chunking) e ∙ f.unchunked)
              (ap (λ (x : Response). x.content_length) e ∙ f.undeclared)))

-- How the client can tell where the body ends, once the reply is finished; `closes` says whether the
-- connection is closed then.
pub data Ended (w : Response) (closes : Bool) : Type 0 where
  ends_chunked :
      w.chunking ≡ true
      → get w.header (codes "Content-Length") ≡ []
      → get w.header (codes "Transfer-Encoding") ≡ codes "chunked"
      → at_least w.req 1 1 ≡ true
      → Ended w closes
  -- the length is one that `Write` observes
  ends_counted :
      w.chunking ≡ false
      → atoi64 (get w.header (codes "Content-Length")) ≡ some w.content_length
      → equal_ℤ w.content_length minus_one ≡ false
      → get w.header (codes "Transfer-Encoding") ≡ []
      → Ended w closes
  ends_closing : w.chunking ≡ false → closes ≡ true → Ended w closes

written :
    (date : Bytes) (sizes : ℕ → ℕ) (code : ℕ) (w : Response)
    → Unsent w
    → ((write_header date sizes code w).wrote_header ≡ true)
      × ((write_header date sizes code w).hijacked ≡ false)
written date sizes code w f = elim (write_header-Sent date sizes code w f) [
  | sent b shut h need c n closing out e ↦
      (ap (λ (x : Response). x.wrote_header) e, ap (λ (x : Response). x.hijacked) e ∙ f.live)
]

equal-minus : (n : ℤ) (o : Option ℤ) → o ≡ some n → o ≢ some minus_one → equal_ℤ n minus_one ≡ false
equal-minus n o e h = elim (Bool-cases (equal_ℤ n minus_one)) [
  | inl same ↦ absurd (h (e ∙ ap some (equal_ℤ-eq n minus_one same)))
  | inr other ↦ other
]

-- A reply to a request other than HEAD, with a status other than 304 and no Content-Length of -1, whose
-- handler leaves the header alone behind WriteHeader and does not hijack the connection, is chunked,
-- with no length, to an HTTP/1.1 request; or its Content-Length is the number that `Write` observes,
-- and it has no Transfer-Encoding; or the connection is closed once the reply is finished.
pub write_header-Delimited :
    (date : Bytes) (sizes : ℕ → ℕ) (code : ℕ) (w v : Response) (calls : List Call)
    → Unsent w
    → is_head w.req ≡ false
    → (code == 304) ≡ false
    → atoi64 (get (write_header date sizes code w).header (codes "Content-Length")) ≢ some minus_one
    → All Untouched calls
    → perform_all date sizes calls (write_header date sizes code w) ≡ ok v
    → Ended (write_header date sizes code w) (finish_request date sizes v).close_after_reply
write_header-Delimited date sizes code w v calls f head status sane quiet e =
    let u = write_header date sizes code w in
    let (wrote, live) = written date sizes code w f in
    elim (write_header-shape date sizes code w f head status) [
      | in_chunks c l h te new ↦ ends_chunked c h te new
      | by_length c a te ↦ ends_counted c a (equal-minus u.content_length _ a sane) te
      | by_closing c l k z ↦ ends_closing c (
          finish_request-closes date sizes v (
            perform_all-Shut date sizes calls u v quiet
              (record { wrote = wrote; live = live; closing = k; unsized = z }) e))
    ]
