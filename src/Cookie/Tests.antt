-- ===== src/Cookie/Tests.antt =====
-- The theorems on http/cookie.go at concrete cookies.
use go_http.Prelude.{
  true, ℕ, ◌+◌, ◌==◌, none, count, inl, inr, ◌≡◌, refl, [], ◌∷◌, List, Bytes, codes, all_bytes,
  all_bytes_iff, All,
}
use go_http.Lex.{is_token, is_separator}
use go_http.Header.{lookup}
use go_http.Cookie.{is_cookie_byte, read_cookies}
use go_http.Utf8.{runes, decode_rune}
use go_http.Cookie.{is_cookie_name_valid, TimeOps, Cookie, new_cookie}
use go_http.Cookie.SetCookie.{string, rfc1123}
use go_http.Cookie.Printed.{IsStop, attributes, string-attributes}
use go_http.Cookie.Line.{IsPair, keep}
use go_http.Cookie.Jar.{add_cookies, read_cookies-add_cookies}

abbrev two_cookies : List (Bytes × Bytes)
two_cookies = (codes "id", codes "a=1") ∷ (codes "lang", codes "en") ∷ []

two_cookies-IsPair : All IsPair two_cookies
unfolding is_token is_cookie_byte all_bytes is_separator
two_cookies-IsPair = (
  (
    (all_bytes_iff is_token (codes "id")).0 refl,
    (all_bytes_iff is_cookie_byte (codes "a=1")).0 refl,
  ),
  (
    (
      (all_bytes_iff is_token (codes "lang")).0 refl,
      (all_bytes_iff is_cookie_byte (codes "en")).0 refl,
    ),
    tt,
  ),
)

read_cookies-add_cookies_example :
    read_cookies (add_cookies [] two_cookies) [] ≡ keep [] two_cookies
read_cookies-add_cookies_example =
    read_cookies-add_cookies [] two_cookies [] (unfold lookup in refl) two_cookies-IsPair

-- a clock on which it is always the same time
abbrev stopped : TimeOps
stopped = record {
  Time = ℕ;
  zero_time = 0;
  has_zone = λ x. 0 == 1;
  format = λ x layout. codes "Wed, 01 Jan 2020 00:00:00 GMT";
  parse = λ layout s. none;
}

stopped-plain : (b : ℕ) (x : ℕ) → IsStop b → count b (stopped.format x (rfc1123 stopped)) ≡ 0
unfolding count
stopped-plain b x (inl e) = rw e refl
stopped-plain b x (inr (inl e)) = rw e refl
stopped-plain b x (inr (inr e)) = rw e refl

abbrev sneaky : Cookie ℕ
sneaky = record (new_cookie 0 (codes "id") (codes "a; Secure\r\nX: y") []) {
  path = codes "/;";
  secure = true;
}

string-attributes_example :
    (count b'\n' (string stopped sneaky) ≡ 0)
    × (count b'\r' (string stopped sneaky) ≡ 0)
    × (count b';' (string stopped sneaky) ≡ count b';' (codes "id") + attributes stopped sneaky)
string-attributes_example = string-attributes stopped sneaky stopped-plain

-- U+0141, in UTF-8, whose low byte is that of a token
rune_name_runs : is_cookie_name_valid (0xC5 ∷ 0x81 ∷ []) ≡ true
unfolding is_cookie_name_valid runes decode_rune is_token is_separator all_bytes
rune_name_runs = refl
