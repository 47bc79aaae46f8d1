-- ===== src/Response/Head.antt =====
-- `response.WriteHeader` (http/server.go): what it changes, and how the body of the reply is framed.
use go_http.Prelude.{
  ℕ, ◌≡◌, refl, sym, ap, subst, ◌∙◌, Bool, true, false, [], Option, none, some, Bytes, if_intro,
  if_false,
}
use go_http.Int.{ℤ}
use go_http.Header.{Header}
use go_http.Transfer.Body.{Body}
use go_http.Transfer.Writer.{minus_one}
use go_http.Response.{
  Response, choose_frame, consume_body, close_body, content_fields, add_date, frame, framed,
  keep_alive, close_if_asked, drop_length, write_head, write_header, explicit_length, agreed_length,
  is_some,
}

abbrev with_body : Response → Body → Bool → Response
with_body w b shut = record w { req = record w.req { body = b }; reader_closed = shut }

consume_body-with :
    (sizes : ℕ → ℕ) (w : Response)
    → (b : Body) × (shut : Bool) × (consume_body sizes w ≡ with_body w b shut)
unfolding consume_body close_body
consume_body-with sizes w =
    if_intro (λ u. (b : Body) × (shut : Bool) × (u ≡ with_body w b shut)) _
      (if_intro (λ u. (b : Body) × (shut : Bool) × (u ≡ with_body w b shut)) _ (_, _, refl)
        (w.req.body, w.reader_closed, refl))
      (w.req.body, w.reader_closed, refl)

abbrev with_fields : Response → Header → Bool → Response
with_fields w h need = record w { header = h; need_sniff = need }

content_fields-with :
    (code : ℕ) (w : Response)
    → (h : Header) × (need : Bool) × (content_fields code w ≡ with_fields w h need)
unfolding content_fields
content_fields-with code w =
    if_intro (λ u. (h : Header) × (need : Bool) × (u ≡ with_fields w h need)) _
      (_, w.need_sniff, refl) (w.header, _, refl)

abbrev pub with_frame : Response → Header → Bool → ℤ → Bool → Response
with_frame w h chunking content_length closing = record w {
  header = h;
  chunking = chunking;
  content_length = content_length;
  close_after_reply = closing;
}

-- A step that changes the framing alone.
abbrev pub Frames : Response → Response → Type 0
Frames w u =
    (h : Header) × (c : Bool) × (n : ℤ) × (closing : Bool) × (u ≡ with_frame w h c n closing)

Frames-trans : (w u v : Response) → Frames w u → Frames u v → Frames w v
Frames-trans w u v (h, c, n, k, e) (h', c', n', k', f) =
    (h', c', n', k', f ∙ ap (λ (x : Response). with_frame x h' c' n' k') e)

Frames-refl : (w : Response) → Frames w w
Frames-refl w = (w.header, w.chunking, w.content_length, w.close_after_reply, refl)

frame-Frames : (n : Option ℤ) (w : Response) → Frames w (frame n w)
unfolding frame
frame-Frames (some n) w = (_, _, _, _, refl)
frame-Frames none w = if_intro (Frames w) _ (_, _, _, _, refl) (_, _, _, _, refl)

keep_alive-Frames : (b : Bool) (w : Response) → Frames w (keep_alive b w)
unfolding keep_alive
keep_alive-Frames b w =
    if_intro (Frames w) _ (if_intro (Frames w) _ (_, _, _, _, refl) (Frames-refl w))
      (if_intro (Frames w) _ (_, _, _, _, refl) (Frames-refl w))

close_if_asked-Frames : (w : Response) → Frames w (close_if_asked w)
unfolding close_if_asked
close_if_asked-Frames w = if_intro (Frames w) _ (_, _, _, _, refl) (Frames-refl w)

drop_length-Frames : (w : Response) → Frames w (drop_length w)
unfolding drop_length
drop_length-Frames w = if_intro (Frames w) _ (_, _, _, _, refl) (Frames-refl w)

choose_frame-Frames : (code : ℕ) (n : Option ℤ) (w : Response) → Frames w (choose_frame code n w)
unfolding choose_frame
choose_frame-Frames code n w = if_intro (Frames w) _ (Frames-refl w) (frame-Frames n w)

-- The steps of the framing, one behind the other.
unfoldable pub settle : Bool → Response → Response
settle has_length u = drop_length (close_if_asked (keep_alive has_length u))

settle-Frames : (b : Bool) (w : Response) → Frames w (settle b w)
unfolding settle
settle-Frames b w = Frames-trans w (keep_alive b w) _ (keep_alive-Frames b w) (
    Frames-trans (keep_alive b w) (close_if_asked (keep_alive b w)) _
      (close_if_asked-Frames (keep_alive b w))
      (drop_length-Frames (close_if_asked (keep_alive b w))))

pub framed-settle :
    (code : ℕ) (w : Response)
    → framed code w
      ≡ settle (is_some (agreed_length (explicit_length w.header)).1) (
          choose_frame code
            (agreed_length (explicit_length w.header)).1
            (record w { header = (agreed_length (explicit_length w.header)).0 }))
unfolding framed settle
framed-settle code w = refl

pub framed-Frames : (code : ℕ) (w : Response) → Frames w (framed code w)
framed-Frames code w =
    let r = agreed_length (explicit_length w.header) in
    let v : Response = record w { header = r.0 } in
    subst (Frames w) (sym (framed-settle code w)) (
      Frames-trans w v _ (r.0, w.chunking, w.content_length, w.close_after_reply, refl)
        (Frames-trans v (choose_frame code r.1 v) _ (choose_frame-Frames code r.1 v)
          (settle-Frames (is_some r.1) (choose_frame code r.1 v))))

pub write_head-out :
    (code : ℕ) (w : Response) → (out : Bytes) × (write_head code w ≡ record w { out = out })
unfolding write_head
write_head-out code w =
    if_intro (λ u. (out : Bytes) × (u ≡ record w { out = out })) _ (_, refl) (w.out, refl)

-- The response before the header is written.
pub record Unsent (w : Response) : Type 0 where
  pub unwritten : w.wrote_header ≡ false
  pub live : w.hijacked ≡ false
  pub unchunked : w.chunking ≡ false
  pub undeclared : w.content_length ≡ minus_one
  pub untyped : w.need_sniff ≡ false
  pub empty : w.sniffed ≡ []
  pub uncounted : w.written ≡ 0

-- The response as `WriteHeader` frames it, before the header goes out.
unfoldable pub prepared : Bytes → (ℕ → ℕ) → ℕ → Response → Response
prepared date sizes code w =
    let u =
      content_fields code (record (consume_body sizes w) { wrote_header = true; status = code }) in
    record u { header = add_date date u.header }

pub write_header-framed :
    (date : Bytes) (sizes : ℕ → ℕ) (code : ℕ) (w : Response)
    → Unsent w
    → write_header date sizes code w ≡ write_head code (framed code (prepared date sizes code w))
unfolding write_header prepared
write_header-framed date sizes code w h =
    if_false w.hijacked _ _ h.live ∙ if_false w.wrote_header _ _ h.unwritten

-- `prepared` changes the request's body, the header, the status and the need to sniff.
pub data Prepared (code : ℕ) (w u : Response) : Type 0 where
  prepared_as :
      (b : Body) (shut : Bool) (h : Header) (need : Bool)
      → u ≡ record w {
        req = record w.req { body = b };
        reader_closed = shut;
        wrote_header = true;
        status = code;
        header = h;
        need_sniff = need;
      }
      → Prepared code w u

pub prepared-Prepared :
    (date : Bytes) (sizes : ℕ → ℕ) (code : ℕ) (w : Response)
    → Prepared code w (prepared date sizes code w)
unfolding prepared
prepared-Prepared date sizes code w =
    let (b, shut, e) = consume_body-with sizes w in
    let v : Response = record (consume_body sizes w) { wrote_header = true; status = code } in
    let (h, need, f) = content_fields-with code v in
    prepared_as b shut (add_date date (content_fields code v).header) need (
      ap (λ (x : Response). record x { header = add_date date (content_fields code v).header }) f
      ∙ ap
          (λ (x : Response). record x {
            wrote_header = true;
            status = code;
            header = add_date date (content_fields code v).header;
            need_sniff = need;
          })
          e)

-- All that `WriteHeader` changes.
pub data Sent (code : ℕ) (w u : Response) : Type 0 where
  sent :
      (b : Body) (shut : Bool) (h : Header) (need c : Bool) (n : ℤ) (closing : Bool) (out : Bytes)
      → u ≡ record w {
        req = record w.req { body = b };
        reader_closed = shut;
        wrote_header = true;
        status = code;
        header = h;
        need_sniff = need;
        chunking = c;
        content_length = n;
        close_after_reply = closing;
        out = out;
      }
      → Sent code w u

Sent-of :
    (code : ℕ) (w v : Response) → Prepared code w v → Sent code w (write_head code (framed code v))
Sent-of code w v (prepared_as b shut h need e) =
    let (g, c, n, k, f) = framed-Frames code v in
    let (out, o) = write_head-out code (framed code v) in
    sent b shut g need c n k out (
      o
      ∙ ap (λ (x : Response). record x { out = out }) f
      ∙ ap
          (λ (x : Response). record x {
            header = g;
            chunking = c;
            content_length = n;
            close_after_reply = k;
            out = out;
          })
          e)

-- The first call changes nothing but the header, its framing and the request's body.
pub write_header-Sent :
    (date : Bytes) (sizes : ℕ → ℕ) (code : ℕ) (w : Response)
    → Unsent w
    → Sent code w (write_header date sizes code w)
write_header-Sent date sizes code w h =
    subst (Sent code w) (sym (write_header-framed date sizes code w h))
      (Sent-of code w (prepared date sizes code w) (prepared-Prepared date sizes code w))
