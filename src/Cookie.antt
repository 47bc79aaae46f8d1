-- ===== src/Cookie.antt =====
-- http/cookie.go: the cookies of a header, read and written.
-- Go's package "time" is the parameter `TimeOps`: a zone, the formatting and the parsing of a date.
pub mod Bytewise
pub mod Line
pub mod Jar
pub mod SetCookie
pub mod Printed
mod Tests
use go_http.Prelude.{
  ℕ, suc, ◌+◌, Bool, true, false, not, ◌&&◌, ◌||◌, List, [], ◌∷◌, ◌++◌, map, Option, none, some,
  Bytes, codes, str_eq, is_empty, one_of, all_bytes, within, index_byte, split, trim_space,
  to_lower, ltb, take, drop, length, get_elem?, ◌==◌, if◌then◌else◌, ◌%◌, ◌-◌,
}
use go_http.Int.{ℤ, pos, negsuc}
use go_http.Strconv.{atoi64, itoa64}
use go_http.Utf8.{runes}
use go_http.Lex.{is_token}
use go_http.Header.{Header, lookup, index, add, get, set}

-- What the program uses of package "time".
pub record TimeOps : Type 1 where
  pub Time : Type 0
  -- `time.Time{}`
  pub zero_time : Time
  -- `len(t.Zone) > 0`
  pub has_zone : Time → Bool
  -- `t.Format(layout)`
  pub format : Time → Bytes → Bytes
  -- `time.Parse(layout, value)`
  pub parse : Bytes → Bytes → Option Time

-- `Cookie`
pub record Cookie (Time : Type 0) : Type 0 where
  pub name : Bytes
  pub value : Bytes
  pub path : Bytes
  pub domain : Bytes
  pub expires : Time
  pub raw_expires : Bytes
  pub max_age : ℤ
  pub secure : Bool
  pub http_only : Bool
  pub raw : Bytes
  pub unparsed : List Bytes

-- `&Cookie{Name: name, Value: value, Raw: raw}`, where the other fields are zero
abbrev pub new_cookie : {Time : Type 0} → Time → Bytes → Bytes → Bytes → Cookie Time
new_cookie zero_time name value raw = record {
  name = name;
  value = value;
  path = [];
  domain = [];
  expires = zero_time;
  raw_expires = [];
  max_age = pos 0;
  secure = false;
  http_only = false;
  raw = raw;
  unparsed = [];
}

-- `cookieNameSanitizer.Replace`
unfoldable pub sanitize_name : Bytes → Bytes
sanitize_name = map (λ c. if c == b'\n' || c == b'\r' then b'-' else c)

-- `cookieValueSanitizer.Replace`
unfoldable pub sanitize_value : Bytes → Bytes
sanitize_value = map (λ c. if c == b'\n' || c == b'\r' || c == b';' then b' ' else c)

-- the last byte of a non-empty text
unfoldable pub ends_with : ℕ → Bytes → Bool
ends_with q [] = false
ends_with q (c ∷ []) = c == q
ends_with q (c ∷ d ∷ cs) = ends_with q (d ∷ cs)

-- all but the last byte
unfoldable pub without_last : Bytes → Bytes
without_last [] = []
without_last (c ∷ []) = []
without_last (c ∷ d ∷ cs) = c ∷ without_last (d ∷ cs)

-- `unquoteCookieValue`
unfoldable pub unquote_cookie_value : Bytes → Bytes
unfolding ends_with without_last
unquote_cookie_value (c ∷ d ∷ cs) =
    if c == b'"' && ends_with b'"' (d ∷ cs) then without_last (d ∷ cs) else c ∷ d ∷ cs
unquote_cookie_value v = v

-- `isCookieByte`
unfoldable pub is_cookie_byte : ℕ → Bool
is_cookie_byte c =
    c == 0x21
    || within 0x23 0x2b c
    || within 0x2d 0x3a c
    || within 0x3c 0x5b c
    || within 0x5d 0x7e c

-- `isCookieExpiresByte`
unfoldable pub is_cookie_expires_byte : ℕ → Bool
unfolding is_cookie_byte
is_cookie_expires_byte c = is_cookie_byte c || c == b',' || c == b' '

-- `parseCookieValueUsing`
unfoldable pub parse_cookie_value_using : (ℕ → Bool) → Bytes → Option Bytes
unfolding unquote_cookie_value
parse_cookie_value_using valid raw =
    let raw' = unquote_cookie_value raw in if all_bytes valid raw' then some raw' else none

-- `parseCookieValue`
unfoldable pub parse_cookie_value : Bytes → Option Bytes
unfolding parse_cookie_value_using
parse_cookie_value = parse_cookie_value_using is_cookie_byte

-- `parseCookieExpiresValue`
unfoldable pub parse_cookie_expires_value : Bytes → Option Bytes
unfolding parse_cookie_value_using
parse_cookie_expires_value = parse_cookie_value_using is_cookie_expires_byte

-- `isCookieNameValid`: a rune is cut down to a byte
unfoldable pub is_cookie_name_valid : Bytes → Bool
is_cookie_name_valid raw = all_bytes (λ c. is_token (c % 256)) (runes raw)

-- `name, val := s, ""`, then a cut at the first `=` if there is one
unfoldable pub cut_at_equals : Bytes → Bytes × Bytes
cut_at_equals s = elim (index_byte b'=' s) [ none ↦ (s, []) | some j ↦ (take j s, drop (suc j) s) ]

-- One turn of the loop over the parts of a `Cookie` line: the name and the value, if it has them.
unfoldable pub read_cookie_part : Bytes → Bytes → Option (Bytes × Bytes)
read_cookie_part filter raw =
    let part = trim_space raw in
    let (name, val) = cut_at_equals part in
    let parsed : Option (Bytes × Bytes) = elim (parse_cookie_value val) [
      | none ↦ none
      | some v ↦ some (name, v)
    ] in
    if is_empty part
    then none
    else if not (is_cookie_name_valid name)
    then none
    else if not (is_empty filter) && not (str_eq filter name)
    then none
    else parsed

unfoldable pub read_cookie_parts : Bytes → List Bytes → List (Bytes × Bytes)
unfolding read_cookie_part cut_at_equals
read_cookie_parts filter [] = []
read_cookie_parts filter (p ∷ ps) = elim (read_cookie_part filter p) [
  | none ↦ read_cookie_parts filter ps
  | some c ↦ c ∷ read_cookie_parts filter ps
]

-- `len(parts) == 1 && parts[0] == ""`
unfoldable pub is_blank : List Bytes → Bool
is_blank (p ∷ []) = is_empty p
is_blank _ = false

unfoldable pub read_cookie_line : Bytes → Bytes → List (Bytes × Bytes)
read_cookie_line filter line =
    let parts = split b';' (trim_space line) in
    if is_blank parts then [] else read_cookie_parts filter parts

unfoldable pub read_cookie_lines : Bytes → List Bytes → List (Bytes × Bytes)
unfolding read_cookie_line read_cookie_parts is_blank
read_cookie_lines filter [] = []
read_cookie_lines filter (l ∷ ls) = read_cookie_line filter l ++ read_cookie_lines filter ls

-- `readCookies`: each cookie by its name and value, since it has no other field
unfoldable pub read_cookies : Header → Bytes → List (Bytes × Bytes)
unfolding read_cookie_lines
read_cookies h filter = elim (lookup (codes "Cookie") h) [
  | none ↦ []
  | some lines ↦ read_cookie_lines filter lines
]

-- `Request.Cookies`
unfoldable pub cookies : Header → List (Bytes × Bytes)
unfolding read_cookies
cookies h = read_cookies h []

abbrev first_of_list {ℓ} : {A : Type ℓ} → List A → Option A
first_of_list [] = none
first_of_list (x ∷ xs) = some x

-- `Request.Cookie`, where `none` is ErrNoCookie
unfoldable pub cookie : Header → Bytes → Option (Bytes × Bytes)
unfolding read_cookies
cookie h name = first_of_list (read_cookies h name)

-- `Request.AddCookie`
unfoldable pub add_cookie : Header → Bytes → Bytes → Header
unfolding sanitize_name sanitize_value
add_cookie h name value =
    let s = sanitize_name name ++ (b'=' ∷ sanitize_value value) in
    let c = get h (codes "Cookie") in
    if not (is_empty c)
    then set h (codes "Cookie") (c ++ (codes "; " ++ s))
    else set h (codes "Cookie") s
