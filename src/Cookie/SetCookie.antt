-- ===== src/Cookie/SetCookie.antt =====
-- `readSetCookies` and `Cookie.String` (http/cookie.go).
use go_http.Prelude.{
  ℕ, zero, suc, Bool, true, false, not, List, [], ◌∷◌, ◌++◌, Option, none, some, Bytes, codes,
  str_eq, is_empty, index_byte, split, trim_space, to_lower, take, drop, if◌then◌else◌, ◌==◌,
}
use go_http.Int.{ℤ, pos, negsuc}
use go_http.Strconv.{atoi64, itoa64}
use go_http.Header.{Header, index, add}
use go_http.Cookie.{
  TimeOps, Cookie, new_cookie, sanitize_name, sanitize_value, parse_cookie_value,
  parse_cookie_expires_value, is_cookie_name_valid, cut_at_equals, is_blank,
}

-- `val[0] == '0'`
abbrev begins_with : ℕ → Bytes → Bool
begins_with b [] = false
begins_with b (c ∷ cs) = c == b

-- `case "max-age"`: the field's new value, or `none` for the break
unfoldable pub max_age_of : Bytes → Option ℤ
max_age_of val = elim (atoi64 val) [
  | none ↦ none
  | some (negsuc n) ↦ none
  | some (pos zero) ↦ some (negsuc 0)
  | some (pos (suc n)) ↦ if begins_with b'0' val then none else some (pos (suc n))
]

module _ (t : TimeOps) where
  open t use {Time, zero_time, has_zone, format, parse}

  -- `time.RFC1123`
  abbrev pub rfc1123 : Bytes
  rfc1123 = codes "Mon, 02 Jan 2006 15:04:05 MST"

  abbrev pub or_else : Option Time → Option Time → Option Time
  or_else none o = o
  or_else (some a) o = some a

  -- `case "expires"`: the layouts are tried in turn
  unfoldable pub parse_expires : Bytes → Option Time
  parse_expires val =
      or_else (parse rfc1123 val) (parse (codes "Mon, 02-Jan-2006 15:04:05 MST") val)

  unfoldable pub unparsed_attr : Cookie Time → Bytes → Cookie Time
  unparsed_attr c part = record c { unparsed = c.unparsed ++ (part ∷ []) }

  unfoldable pub set_max_age : Cookie Time → Bytes → Bytes → Cookie Time
  unfolding unparsed_attr max_age_of
  set_max_age c part val = elim (max_age_of val) [
    | none ↦ unparsed_attr c part
    | some secs ↦ record c { max_age = secs }
  ]

  unfoldable pub set_expires : Cookie Time → Bytes → Bytes → Cookie Time
  unfolding unparsed_attr parse_expires
  set_expires c part val = elim (parse_expires val) [
    | none ↦ unparsed_attr (record c { raw_expires = val; expires = zero_time }) part
    | some e ↦ record c { raw_expires = val; expires = e }
  ]

  -- the switch on the attribute's name, with the value parsed
  unfoldable pub set_attr : Cookie Time → Bytes → Bytes → Bytes → Cookie Time
  unfolding set_max_age set_expires
  set_attr c part lower_attr val =
      if str_eq lower_attr (codes "secure")
      then record c { secure = true }
      else if str_eq lower_attr (codes "httponly")
      then record c { http_only = true }
      else if str_eq lower_attr (codes "domain")
      then record c { domain = val }
      else if str_eq lower_attr (codes "max-age")
      then set_max_age c part val
      else if str_eq lower_attr (codes "expires")
      then set_expires c part val
      else if str_eq lower_attr (codes "path")
      then record c { path = val }
      else unparsed_attr c part

  abbrev parse_attr_value : Bytes → Bytes → Option Bytes
  parse_attr_value lower_attr val =
      if str_eq lower_attr (codes "expires")
      then parse_cookie_expires_value val
      else parse_cookie_value val

  -- one turn of the loop over the attributes
  unfoldable pub read_attr : Cookie Time → Bytes → Cookie Time
  unfolding set_attr
  read_attr c raw =
      let part = trim_space raw in
      let (attr, val) = cut_at_equals part in
      let lower_attr = to_lower attr in
      let parsed : Cookie Time = elim (parse_attr_value lower_attr val) [
        | none ↦ unparsed_attr c part
        | some v ↦ set_attr c part lower_attr v
      ] in
      if is_empty part then c else parsed

  unfoldable pub read_attrs : Cookie Time → List Bytes → Cookie Time
  unfolding read_attr
  read_attrs c [] = c
  read_attrs c (p ∷ ps) = read_attrs (read_attr c p) ps

  -- the first part of a line: the name and the value, or `none` for a line that is skipped
  unfoldable pub read_name_value : Bytes → Option (Bytes × Bytes)
  read_name_value raw =
      let part = trim_space raw in
      elim (index_byte b'=' part) [
        | none ↦ none
        | some j ↦
            let parsed : Option (Bytes × Bytes) = elim (parse_cookie_value (drop (suc j) part)) [
              | none ↦ none
              | some v ↦ some (take j part, v)
            ] in
            if is_cookie_name_valid (take j part) then parsed else none
      ]

  -- one turn of the loop over the lines, on the parts of the line
  unfoldable pub read_set_cookie_parts : Bytes → List Bytes → Option (Cookie Time)
  unfolding read_name_value read_attrs
  read_set_cookie_parts line [] = none
  read_set_cookie_parts line (p ∷ ps) = elim (read_name_value p) [
    | none ↦ none
    | some (n, v) ↦ some (read_attrs (new_cookie zero_time n v line) ps)
  ]

  unfoldable pub read_set_cookie : Bytes → Option (Cookie Time)
  unfolding read_set_cookie_parts
  read_set_cookie line =
      let parts = split b';' (trim_space line) in
      if is_blank parts then none else read_set_cookie_parts line parts

  unfoldable pub read_set_cookie_lines : List Bytes → List (Cookie Time)
  unfolding read_set_cookie
  read_set_cookie_lines [] = []
  read_set_cookie_lines (l ∷ ls) = elim (read_set_cookie l) [
    | none ↦ read_set_cookie_lines ls
    | some c ↦ c ∷ read_set_cookie_lines ls
  ]

  -- `readSetCookies`, `Response.Cookies`
  unfoldable pub read_set_cookies : Header → List (Cookie Time)
  unfolding read_set_cookie_lines
  read_set_cookies h = read_set_cookie_lines (index h (codes "Set-Cookie"))

  abbrev pub when : Bool → Bytes → Bytes
  when b s = if b then s else []

  unfoldable pub max_age_text : ℤ → Bytes
  max_age_text (pos zero) = []
  max_age_text (pos (suc n)) = codes "; Max-Age=" ++ itoa64 (pos (suc n))
  max_age_text (negsuc n) = codes "; Max-Age=0"

  -- `Cookie.String`
  unfoldable pub string : Cookie Time → Bytes
  unfolding max_age_text
  string c =
      (sanitize_name c.name ++ (b'=' ∷ sanitize_value c.value))
      ++ (when (not (is_empty c.path)) (codes "; Path=" ++ sanitize_value c.path)
          ++ (when (not (is_empty c.domain)) (codes "; Domain=" ++ sanitize_value c.domain)
              ++ (when (has_zone c.expires) (codes "; Expires=" ++ format c.expires rfc1123)
                  ++ (max_age_text c.max_age
                      ++ (when c.http_only (codes "; HttpOnly")
                          ++ when c.secure (codes "; Secure"))))))

  -- `SetCookie`, on the headers of the response
  unfoldable pub set_cookie : Header → Cookie Time → Header
  unfolding string
  set_cookie h c = add h (codes "Set-Cookie") (string c)
