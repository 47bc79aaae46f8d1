-- ===== src/Handlers/Escaped.antt =====
-- `htmlEscape` (http/server.go).
use go_http.Prelude.{
  ℕ, ◌+◌, ◌≡◌, refl, Bool, true, false, List, [], ◌∷◌, ◌++◌, Bytes, arith, codes, All, All-append,
  ◌==◌, count, count-append, inl, inr, Bool-cases, ◌&&◌,
}
use go_http.Status.{status_text, status_texts, text_in, or_empty}
use go_http.Handlers.{redirect_note, escape_byte, html_escape}

-- A byte that opens or closes neither a tag nor a quoted attribute.
abbrev pub IsInert : ℕ → Type 0
IsInert c =
    ((c == b'<') ≡ false) × ((c == b'>') ≡ false) × ((c == b'"') ≡ false) × ((c == b'\'') ≡ false)

escape_byte-IsInert : (c : ℕ) → All IsInert (escape_byte c)
unfolding escape_byte
escape_byte-IsInert c = ground arith

-- An escaped text has no byte that opens or closes a tag or a quoted attribute.
html_escape-IsInert : (s : Bytes) → All IsInert (html_escape s)
unfolding html_escape
html_escape-IsInert [] = tt
html_escape-IsInert (c ∷ s) =
    All-append IsInert (escape_byte c) (html_escape s) (escape_byte-IsInert c)
      (html_escape-IsInert s)

count-inert : (b : ℕ) (s : Bytes) → All (λ c. (c == b) ≡ false) s → count b s ≡ 0
unfolding count
count-inert b [] h = refl
count-inert b (c ∷ s) h = ground (arith, count-inert b s h.1)

-- The bytes that close or open a tag or a quoted attribute in a text.
abbrev pub marks : Bytes → ℕ
marks s = count b'<' s + count b'>' s + count b'"' s + count b'\'' s

marks-append : (s t : Bytes) → marks (s ++ t) ≡ marks s + marks t
marks-append s t = omega (
  arith,
  count-append b'<' s t,
  count-append b'>' s t,
  count-append b'"' s t,
  count-append b'\'' s t,
)

inert-marks : (s : Bytes) → All IsInert s → marks s ≡ 0
unfolding count
inert-marks [] h = refl
inert-marks (c ∷ s) h = ground (arith, inert-marks s h.1)

abbrev no_marks : List (ℕ × Bytes) → Bool
no_marks [] = true
no_marks (e ∷ m) = marks e.1 == 0 && no_marks m

text_in-marks :
    (code : ℕ) (m : List (ℕ × Bytes)) → no_marks m ≡ true → marks (or_empty (text_in code m)) ≡ 0
unfolding text_in
text_in-marks code [] h = unfold count in refl
text_in-marks code ((c, t) ∷ m) h = elim (Bool-cases (c == code)) [
  | inl here ↦ rw here (ground arith)
  | inr there ↦ rw there (text_in-marks code m (ground arith))
]

status_texts_quiet : no_marks status_texts ≡ true
unfolding count
status_texts_quiet = refl

status_text-marks : (code : ℕ) → marks (status_text code) ≡ 0
unfolding status_text
status_text-marks code = text_in-marks code status_texts status_texts_quiet

note_open : marks (codes "<a href=\"") ≡ 2
unfolding count
note_open = refl

note_middle : marks (codes "\">") ≡ 2
unfolding count
note_middle = refl

note_end : marks (codes "</a>.\n") ≡ 2
unfolding count
note_end = refl

-- Whatever the target of a redirect is, the note that is sent has no other marks than those of its one
-- link: two for the opening tag and the attribute's quote, two that close them, two for the end tag.
pub redirect_note-marks : (target : Bytes) (code : ℕ) → marks (redirect_note target code) ≡ 6
unfolding redirect_note
redirect_note-marks target code = omega (
  arith,
  marks-append (codes "<a href=\"")
      (html_escape target ++ (codes "\">" ++ (status_text code ++ codes "</a>.\n"))),
  marks-append (html_escape target) (codes "\">" ++ (status_text code ++ codes "</a>.\n")),
  marks-append (codes "\">") (status_text code ++ codes "</a>.\n"),
  marks-append (status_text code) (codes "</a>.\n"),
  inert-marks (html_escape target) (html_escape-IsInert target),
  status_text-marks code,
  note_open,
  note_middle,
  note_end,
)
