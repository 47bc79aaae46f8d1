-- ===== src/Response/Stream.antt =====
-- The body that `response.Write` and `response.Flush` put behind the header (http/server.go): the
-- sniff buffer, then the header's end, then the blocks of the body.
use go_http.Prelude.{
  ◌≤◌, ◌≡◌, refl, sym, ap, subst, ◌∙◌, Bool, true, false, List, [], ◌∷◌, ◌++◌, Bytes, is_empty,
  length, flatten, arith, if◌then◌else◌, append_assoc, append-nil, Bool-cases, inl, inr,
}
use go_http.Chunked.{crlf, chunk, chunks}
use go_http.Sniff.{sniff_len}
use go_http.Response.{Response, block, size_line, sniff_line, sniff}

-- The pieces of a body, each in a chunk of its own or one behind the other.
abbrev pub coded : Bool → List Bytes → Bytes
coded chunking ps = if chunking then chunks ps else flatten ps

pub chunks-append : (ps qs : List Bytes) → chunks (ps ++ qs) ≡ chunks ps ++ chunks qs
unfolding chunks
chunks-append [] qs = refl
chunks-append (p ∷ ps) qs = rw (chunks-append ps qs) (sym (append_assoc (chunk p) (chunks ps) _))

flatten-append : (ps qs : List Bytes) → flatten (ps ++ qs) ≡ flatten ps ++ flatten qs
flatten-append [] qs = refl
flatten-append (p ∷ ps) qs =
    rw (flatten-append ps qs) (sym (append_assoc p (flatten ps) (flatten qs)))

pub coded-append : (c : Bool) (ps qs : List Bytes) → coded c (ps ++ qs) ≡ coded c ps ++ coded c qs
coded-append true ps qs = chunks-append ps qs
coded-append false ps qs = flatten-append ps qs

-- A block that is not empty is a chunk.
pub coded-block :
    (c : Bool) (text : Bytes) → is_empty text ≡ false → coded c (text ∷ []) ≡ block c text
unfolding chunks chunk block size_line
coded-block c [] h = cc
coded-block true (x ∷ xs) h = rw append-nil (sym (append_assoc _ crlf ((x ∷ xs) ++ crlf)))
coded-block false (x ∷ xs) h = rw append-nil

-- What stands between the header that is left open and the body: nothing where the header was not
-- left open, else the type of a beginning of the body and the header's end.
pub data Opening (content : Bytes) (sniffs : Bool) (opening : Bytes) : Type 0 where
  closed : sniffs ≡ false → opening ≡ [] → Opening content sniffs opening
  typed :
      (seen later : Bytes)
      → sniffs ≡ true
      → content ≡ seen ++ later
      → opening ≡ sniff_line seen
      → Opening content sniffs opening

pub Opening-append :
    (content more : Bytes) (sniffs : Bool) (opening : Bytes)
    → Opening content sniffs opening
    → Opening (content ++ more) sniffs opening
Opening-append content more sniffs opening (closed f e) = closed f e
Opening-append content more sniffs opening (typed seen later t e o) =
    typed seen (later ++ more) t (ap (λ l. l ++ more) e ∙ append_assoc seen later more) o

-- How far the reply is: `content` has been accepted, `base` was on the wire when the body began;
-- the last three are `needSniff`, the sniff buffer and the wire now.
pub data Phase (c s : Bool) (base content : Bytes) (need : Bool) (buffer out : Bytes) : Type 0 where
  pending :
      s ≡ true
      → need ≡ true
      → buffer ≡ content
      → length content ≤ sniff_len
      → out ≡ base
      → Phase c s base content need buffer out
  started :
      (opening : Bytes) (ps : List Bytes)
      → need ≡ false
      → Opening content s opening
      → flatten ps ≡ content
      → out ≡ base ++ (opening ++ coded c ps)
      → Phase c s base content need buffer out

abbrev pub with_stream : Response → Bool → Bytes → Bytes → Response
with_stream w need buffer out = record w { need_sniff = need; sniffed = buffer; out = out }

-- What a step on the body leaves: a response that differs in the stream alone, in phase.
pub data Streamed (c s : Bool) (base content : Bytes) (w u : Response) : Type 0 where
  streamed :
      (need : Bool) (buffer out : Bytes)
      → u ≡ with_stream w need buffer out
      → Phase c s base content need buffer out
      → Streamed c s base content w u

-- The stream after a block that starts or continues the body.
pub Phase-block :
    (c s : Bool) (base content opening text buffer out : Bytes) (ps : List Bytes)
    → is_empty text ≡ false
    → Opening content s opening
    → flatten ps ≡ content
    → out ≡ base ++ (opening ++ coded c ps)
    → Phase c s base (content ++ text) false buffer (out ++ block c text)
Phase-block c s base content opening text buffer out ps ne o f e =
    started opening (ps ++ (text ∷ [])) refl (Opening-append content text s opening o)
      (flatten-append ps (text ∷ []) ∙ rw (f, append-nil))
      (rw (e, coded-append c ps (text ∷ []), coded-block c text ne)
        (append_assoc base _ _ ∙ ap (λ t. base ++ t) (append_assoc opening _ _)))

sniff-empty :
    (w : Response)
    → w.need_sniff ≡ true
    → w.sniffed ≡ []
    → sniff w ≡ with_stream w false w.sniffed (w.out ++ sniff_line w.sniffed)
unfolding sniff
sniff-empty w n b = ground arith

sniff-full :
    (w : Response)
    → w.need_sniff ≡ true
    → is_empty w.sniffed ≡ false
    → sniff w
      ≡ with_stream w false w.sniffed
          (w.out ++ (sniff_line w.sniffed ++ block w.chunking w.sniffed))
unfolding sniff
sniff-full w n b = ground arith

sniff-none : (w : Response) → w.need_sniff ≡ false → sniff w ≡ w
unfolding sniff
sniff-none w n = rw n

pub coded-nil : (c : Bool) → coded c [] ≡ []
unfolding chunks
coded-nil true = refl
coded-nil false = refl

-- The body has begun: the wire is an opening and the pieces of the content.
pub data Begun (c s : Bool) (base content : Bytes) (w u : Response) : Type 0 where
  begun :
      (opening : Bytes) (ps : List Bytes) (out : Bytes)
      → u ≡ with_stream w false w.sniffed out
      → Opening content s opening
      → flatten ps ≡ content
      → out ≡ base ++ (opening ++ coded c ps)
      → Begun c s base content w u

pub sniff-pending :
    (w : Response) (s : Bool) (base : Bytes)
    → s ≡ true
    → w.need_sniff ≡ true
    → w.out ≡ base
    → Begun w.chunking s base w.sniffed w (sniff w)
sniff-pending w s base t n e = elim (Bool-cases (is_empty w.sniffed)) [
  | inl empty ↦
      let nothing : w.sniffed ≡ [] = ground arith in
      begun (sniff_line w.sniffed) [] (w.out ++ sniff_line w.sniffed) (sniff-empty w n nothing)
        (typed w.sniffed [] t (sym (append-nil w.sniffed)) refl) (sym nothing)
        (rw (e, coded-nil w.chunking, append-nil))
  | inr full ↦
      begun (sniff_line w.sniffed) (w.sniffed ∷ [])
        (w.out ++ (sniff_line w.sniffed ++ block w.chunking w.sniffed)) (sniff-full w n full)
        (typed w.sniffed [] t (sym (append-nil w.sniffed)) refl) (append-nil w.sniffed)
        (rw (e, coded-block w.chunking w.sniffed full))
]

-- `sniff` begins the body, if it has not begun.
pub sniff-Begun :
    (w : Response) (s : Bool) (base content : Bytes)
    → Phase w.chunking s base content w.need_sniff w.sniffed w.out
    → Begun w.chunking s base content w (sniff w)
sniff-Begun w s base content (started opening ps n o f e) =
    begun opening ps w.out (sniff-none w n ∙ ap (λ b. with_stream w b w.sniffed w.out) n) o f e
sniff-Begun w s base content (pending t n b le e) =
    subst (λ x. Begun w.chunking s base x w (sniff w)) b (sniff-pending w s base t n e)
