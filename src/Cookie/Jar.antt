-- ===== src/Cookie/Jar.antt =====
-- `Request.AddCookie` and `readCookies` (http/request.go, http/cookie.go) undo one another.
use go_http.Prelude.{
  false, List, [], ◌∷◌, ◌++◌, ◌≡◌, refl, ap, ◌∙◌, Option, none, some, Bytes, All, codes, is_empty,
  append_assoc, append-nil, sym,
}
use go_http.Header.{Header, lookup, canonical_header_key}
use go_http.Header.Maps.{lookup-set, get-lookup}
use go_http.Cookie.{read_cookies, read_cookie_lines, add_cookie}
use go_http.Cookie.Bytewise.{sanitize_name-IsName, sanitize_value-IsValue}
use go_http.Cookie.Line.{pair, IsPair, pairs_tail, line, keep, read_cookie_line-line}

abbrev cookie_key : Bytes
cookie_key = codes "Cookie"

-- `AddCookie` for each cookie in turn.
abbrev pub add_cookies : Header → List (Bytes × Bytes) → Header
add_cookies h [] = h
add_cookies h (c ∷ cs) = add_cookies (add_cookie h c.0 c.1) cs

cookie_canonical : canonical_header_key cookie_key ≡ cookie_key
unfolding canonical_header_key
cookie_canonical = refl

line_ne : (d : Bytes × Bytes) (ds : List (Bytes × Bytes)) → is_empty (line (d ∷ ds)) ≡ false
line_ne ([], v) ds = refl
line_ne (x ∷ n, v) ds = refl

-- The one field that holds the cookies added so far.
abbrev field : List (Bytes × Bytes) → Option (List Bytes)
field [] = none
field (c ∷ cs) = some (line (c ∷ cs) ∷ [])

pairs_tail-append :
    (cs : List (Bytes × Bytes)) (d : Bytes × Bytes)
    → pairs_tail (cs ++ (d ∷ [])) ≡ pairs_tail cs ++ (codes "; " ++ pair d)
pairs_tail-append [] d = rw append-nil
pairs_tail-append (c ∷ cs) d =
    rw (pairs_tail-append cs d) (ap (λ t. b';' ∷ b' ' ∷ t) (sym (append_assoc (pair c) _ _)))

add_cookie-field :
    (h : Header) (ds : List (Bytes × Bytes)) (c : Bytes × Bytes)
    → IsPair c
    → lookup cookie_key h ≡ field ds
    → lookup cookie_key (add_cookie h c.0 c.1) ≡ field (ds ++ (c ∷ []))
unfolding add_cookie
add_cookie-field h [] (n, v) (p, q) e =
    rw
      (
        get-lookup cookie_key cookie_canonical h none e,
        sanitize_name-IsName n p,
        sanitize_value-IsValue v q,
        append-nil,
      )
      (lookup-set cookie_key cookie_canonical h (pair (n, v)))
add_cookie-field h (d ∷ ds) (n, v) (p, q) e =
    rw
      (
        get-lookup cookie_key cookie_canonical h (field (d ∷ ds)) e,
        sanitize_name-IsName n p,
        sanitize_value-IsValue v q,
        line_ne d ds,
      )
      (lookup-set cookie_key cookie_canonical h (line (d ∷ ds) ++ (codes "; " ++ pair (n, v)))
        ∙ rw (pairs_tail-append ds (n, v), append_assoc))

add_cookies-field :
    (cs : List (Bytes × Bytes)) (h : Header) (ds : List (Bytes × Bytes))
    → All IsPair cs
    → lookup cookie_key h ≡ field ds
    → lookup cookie_key (add_cookies h cs) ≡ field (ds ++ cs)
add_cookies-field [] h ds a e = rw append-nil e
add_cookies-field (c ∷ cs) h ds a e =
    add_cookies-field cs (add_cookie h c.0 c.1) (ds ++ (c ∷ [])) a.1 (add_cookie-field h ds c a.0 e)
    ∙ rw append_assoc

read_cookies-field :
    (h : Header) (filter : Bytes) (cs : List (Bytes × Bytes))
    → All IsPair cs
    → lookup cookie_key h ≡ field cs
    → read_cookies h filter ≡ keep filter cs
unfolding read_cookies
read_cookies-field h filter [] a e = rw (e, read_cookies)
read_cookies-field h filter (c ∷ cs) a e =
    rw (e, read_cookies)
      (unfold read_cookie_lines in rw (read_cookie_line-line filter (c ∷ cs) a, append-nil))

-- Cookies with valid names and values, added to a request that has none, are read back in order:
-- all of them with no filter, and those of one name with a filter.
pub read_cookies-add_cookies :
    (h : Header) (cs : List (Bytes × Bytes)) (filter : Bytes)
    → lookup (codes "Cookie") h ≡ none
    → All IsPair cs
    → read_cookies (add_cookies h cs) filter ≡ keep filter cs
read_cookies-add_cookies h cs filter e a =
    read_cookies-field (add_cookies h cs) filter cs a (add_cookies-field cs h [] a e)
