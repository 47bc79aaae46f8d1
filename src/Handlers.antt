-- ===== src/Handlers.antt =====
-- Helper handlers of http/server.go: Error, NotFound, StripPrefix, Redirect and TimeoutHandler. A
-- handler is the list of the calls that it makes of its ResponseWriter.
mod Tests
pub mod Escaped
pub mod Timeout
pub mod Rooted
use go_http.Prelude.{
  ℕ, zero, suc, ◌+◌, Bool, true, false, not, ◌&&◌, ◌||◌, List, [], ◌∷◌, ◌++◌, Option, none, some,
  Bytes, codes, str_eq, is_empty, length, take, drop, index_byte, has_prefix, ◌==◌, if◌then◌else◌,
}
use mathlib.Core.List.{reverse}
use go_http.Transfer.{Outcome, ok, panics, ◌>>=◌}
use go_http.Status.{status_text}
use go_http.Requests.{Url, Request}
use go_http.Response.Calls.{Call}

-- `Error`
unfoldable pub error : Bytes → ℕ → List Call
error text code =
    Call.set_field (codes "Content-Type") (codes "text/plain; charset=utf-8")
    ∷ Call.reply code
    ∷ Call.body (text ++ (b'\n' ∷ []))
    ∷ []

-- `NotFound`
unfoldable pub not_found : List Call
unfolding error
not_found = error (codes "404 page not found") 404

-- `StripPrefix`
unfoldable pub strip_prefix : Bytes → (Request → List Call) → Request → List Call
unfolding not_found has_prefix
strip_prefix prefix h r =
    if not (has_prefix r.url.path prefix)
    then not_found
    else h (record r { url = record r.url { path = drop (length prefix) r.url.path } })

-- what `htmlReplacer` puts for a byte
unfoldable pub escape_byte : ℕ → Bytes
escape_byte c =
    if c == b'&'
    then codes "&amp;"
    else if c == b'<'
    then codes "&lt;"
    else if c == b'>'
    then codes "&gt;"
    else if c == b'"'
    then codes "&quot;"
    else if c == b'\''
    then codes "&apos;"
    else c ∷ []

-- `htmlEscape`
unfoldable pub html_escape : Bytes → Bytes
unfolding escape_byte
html_escape [] = []
html_escape (c ∷ s) = escape_byte c ++ html_escape s

-- the directory of `path.Split`: the text up to the last slash, with the slash
unfoldable pub split_dir : Bytes → Bytes
split_dir [] = []
split_dir (c ∷ s) =
    let rest = split_dir s in if is_empty rest && not (c == b'/') then [] else c ∷ rest

-- `strings.Index(s, "?")`, and the text in front of it and from it on
unfoldable pub cut_query : Bytes → Bytes × Bytes
unfolding index_byte
cut_query s = elim (index_byte b'?' s) [ none ↦ (s, []) | some i ↦ (take i s, drop i s) ]

abbrev pub ends_with_slash : Bytes → Bool
ends_with_slash [] = false
ends_with_slash (c ∷ []) = c == b'/'
ends_with_slash (c ∷ d ∷ s) = ends_with_slash (d ∷ s)

abbrev pub begins_with_slash : Bytes → Bool
begins_with_slash [] = false
begins_with_slash (c ∷ s) = c == b'/'

-- the location from a URL with no scheme; `clean` is `path.Clean`, an argument. The last byte of an
-- empty path is out of range.
unfoldable pub relative_location : (Bytes → Bytes) → Bytes → Bytes → Outcome Bytes
unfolding split_dir cut_query
relative_location clean oldpath url =
    let rooted = if begins_with_slash url then url else split_dir oldpath ++ url in
    let (path, query) = cut_query rooted in
    let cleaned = clean path in
    let slashed =
      if ends_with_slash path && not (ends_with_slash cleaned)
      then cleaned ++ (b'/' ∷ [])
      else cleaned in
    if is_empty path then panics else ok (slashed ++ query)

-- the location that `Redirect` sends; `parse` is `url.Parse`
unfoldable pub location : (Bytes → Option Url) → (Bytes → Bytes) → Request → Bytes → Outcome Bytes
unfolding relative_location
location parse clean r url = elim (parse url) [
  | none ↦ ok url
  | some u ↦
      if is_empty u.scheme
      then relative_location clean (if is_empty r.url.path then codes "/" else r.url.path) url
      else ok url
]

-- the note for clients that do not follow a redirect
unfoldable pub redirect_note : Bytes → ℕ → Bytes
unfolding html_escape status_text
redirect_note target code =
    codes "<a href=\""
    ++ (html_escape target ++ (codes "\">" ++ (status_text code ++ codes "</a>.\n")))

-- `Redirect`
unfoldable pub redirect :
    (Bytes → Option Url) → (Bytes → Bytes) → Request → Bytes → ℕ → Outcome (List Call)
unfolding location redirect_note
redirect parse clean r url code = do
  target ← location parse clean r url
  ok (
      Call.set_field (codes "Location") target
      ∷ Call.reply code
      ∷ (if str_eq r.method (codes "GET")
          then Call.body (redirect_note target code ++ (b'\n' ∷ [])) ∷ []
          else []))
