-- ===== src/Lex/Quoted.antt =====
-- What `httpUnquote` (http/lex.go) eats and returns.
use go_http.Prelude.{
  ℕ, ◌+◌, ◌≤◌, true, ◌||◌, [], ◌∷◌, ◌++◌, ◌≡◌, ◌≢◌, refl, ◌∙◌, ap, arith, Bytes, AllBytes, length,
  ◌==◌, if◌then◌else◌, append_assoc, append-nil, length-append,
}
use go_http.Lex.{unquoted, is_any_text, clean_byte, http_unquote_pair, unquote_from, http_unquote}

-- The bounds of a successful run of the loop at position `i`.
unquote_from_bounds :
    (i : ℕ) (buf raw : Bytes) (n : ℕ) (s : Bytes)
    → unquote_from i buf raw ≡ unquoted n s
    → (i + 1 ≤ n) × (n ≤ i + length raw) × (length s + i + 1 ≤ n + length buf)
unfolding unquote_from
unquote_from_bounds i buf [] n s h = cc
unquote_from_bounds i buf (b ∷ []) n s h = ground arith
unquote_from_bounds i buf (b ∷ d ∷ rest) n s h = ground (
  arith,
  unquote_from_bounds (i + 2) (buf ++ (http_unquote_pair d ∷ [])) rest n s,
  unquote_from_bounds (i + 1) (buf ++ (clean_byte b ∷ [])) (d ∷ rest) n s,
  length-append {0} buf (http_unquote_pair d ∷ []),
  length-append {0} buf (clean_byte b ∷ []),
)

-- A successful `httpUnquote` eats at least the two quotes, never more bytes than there are, and
-- returns a text that is shorter than what it ate by two or more.
pub http_unquote_bounds :
    (raw : Bytes) (n : ℕ) (s : Bytes)
    → http_unquote raw ≡ unquoted n s
    → (2 ≤ n) × (n ≤ length raw) × (length s + 2 ≤ n)
unfolding http_unquote
http_unquote_bounds [] n s h = cc
http_unquote_bounds (b ∷ rest) n s h = ground (arith, unquote_from_bounds 1 [] rest n s)

unquote_from-append :
    (i : ℕ) (buf raw more : Bytes) (n : ℕ) (s : Bytes)
    → unquote_from i buf raw ≡ unquoted n s
    → unquote_from i buf (raw ++ more) ≡ unquoted n s
unfolding unquote_from
unquote_from-append i buf [] more n s h = cc
unquote_from-append i buf (b ∷ []) [] n s h = h
unquote_from-append i buf (b ∷ []) (d ∷ more) n s h = ground arith
unquote_from-append i buf (b ∷ d ∷ rest) more n s h = ground (
  arith,
  unquote_from-append (i + 2) (buf ++ (http_unquote_pair d ∷ [])) rest more n s,
  unquote_from-append (i + 1) (buf ++ (clean_byte b ∷ [])) (d ∷ rest) more n s,
)

-- Only the first quoted string counts: whatever follows it, the result is the same.
pub http_unquote-append :
    (raw more : Bytes) (n : ℕ) (s : Bytes)
    → http_unquote raw ≡ unquoted n s
    → http_unquote (raw ++ more) ≡ unquoted n s
unfolding http_unquote
http_unquote-append [] more n s h = cc
http_unquote-append (b ∷ rest) more n s h = ground (arith, unquote_from-append 1 [] rest more n s)

-- The specification's writer: a backslash before each quote and backslash.
abbrev pub escape : ℕ → Bytes
escape c = if c == b'"' || c == b'\\' then b'\\' ∷ c ∷ [] else c ∷ []

abbrev pub escape_all : Bytes → Bytes
escape_all [] = []
escape_all (c ∷ cs) = escape c ++ escape_all cs

abbrev pub quote : Bytes → Bytes
quote s = b'"' ∷ (escape_all s ++ (b'"' ∷ []))

-- One escaped byte, with something behind it.
unquote_from-escape :
    (i : ℕ) (buf : Bytes) (c : ℕ) (rest : Bytes)
    → is_any_text c ≡ true
    → rest ≢ []
    → unquote_from i buf (escape c ++ rest)
      ≡ unquote_from (i + length (escape c)) (buf ++ (c ∷ [])) rest
unfolding unquote_from
unquote_from-escape i buf c [] h ne = absurd (ne refl)
unquote_from-escape i buf c (d ∷ rest) h ne = ground arith

unquote_from-escape_all :
    (s : Bytes) (i : ℕ) (buf rest : Bytes)
    → AllBytes is_any_text s
    → unquote_from i buf (escape_all s ++ (b'"' ∷ rest))
      ≡ unquoted (i + length (escape_all s) + 1) (buf ++ s)
unquote_from-escape_all [] i buf [] h =
    unfold unquote_from in rw append-nil (ap (λ k. unquoted k buf) (omega arith))
unquote_from-escape_all [] i buf (d ∷ rest) h =
    unfold unquote_from in rw append-nil (ap (λ k. unquoted k buf) (omega arith))
unquote_from-escape_all (c ∷ cs) i buf rest h = rw append_assoc (
    unquote_from-escape i buf c _ h.0 (tail_ne cs)
    ∙ unquote_from-escape_all cs (i + length (escape c)) (buf ++ (c ∷ [])) rest h.1
    ∙ rw (append_assoc, length-append) (ap (λ k. unquoted k (buf ++ (c ∷ cs))) (omega arith)))
  where
    tail_ne : (t : Bytes) → escape_all t ++ (b'"' ∷ rest) ≢ []
    tail_ne [] = λ e. cc
    tail_ne (x ∷ t) = ground arith

-- `httpUnquote` reads back what the specification's writer writes, with any bytes behind it: for a
-- text with no control bytes, it eats exactly the quoted string and returns the text.
pub http_unquote-quote :
    (s rest : Bytes)
    → AllBytes is_any_text s
    → http_unquote (quote s ++ rest) ≡ unquoted (length (quote s)) s
unfolding http_unquote
http_unquote-quote s rest h = rw append_assoc (
    unquote_from-escape_all s 1 [] rest h ∙ rw length-append (ap (λ k. unquoted k s) (omega arith)))
