-- ===== src/Cookie/Bytewise.antt =====
-- What the bytes of valid cookie names and values are not (http/cookie.go).
use go_http.Prelude.{
  ℕ, ◌<◌, ◌%◌, true, false, [], ◌∷◌, ◌≡◌, refl, ap, some, arith, Bytes, AllBytes, All, Lacks,
  Visible, all_bytes_iff, is_white, ◌==◌,
}
use native.Mathlib.Nat.{mod-eq_of_lt}
use go_http.Lex.{is_token, is_separator, is_ctl, is_char}
use go_http.Utf8.{runes_ascii}
use go_http.Cookie.{
  sanitize_name, sanitize_value, unquote_cookie_value, is_cookie_byte, parse_cookie_value,
  is_cookie_name_valid,
}

-- A byte of a name.
token_byte :
    (c : ℕ)
    → is_token c ≡ true
    → (c < 128)
      × (is_white c ≡ false)
      × ((c == b'=') ≡ false)
      × ((c == b';') ≡ false)
      × ((c == b'\n') ≡ false)
      × ((c == b'\r') ≡ false)
unfolding is_token is_separator is_white is_ctl is_char
token_byte c h = ground arith

-- A byte of a value.
cookie_byte :
    (c : ℕ)
    → is_cookie_byte c ≡ true
    → (is_white c ≡ false)
      × ((c == b';') ≡ false)
      × ((c == b'"') ≡ false)
      × ((c == b'\n') ≡ false)
      × ((c == b'\r') ≡ false)
unfolding is_cookie_byte is_white
cookie_byte c h = ground arith

abbrev pub IsName : Bytes → Type 0
IsName = AllBytes is_token

abbrev pub IsValue : Bytes → Type 0
IsValue = AllBytes is_cookie_byte

pub All-map {κ μ} :
    {P : ℕ → Type κ} {Q : ℕ → Type μ} (s : Bytes) → ((c : ℕ) → P c → Q c) → All P s → All Q s
All-map [] f h = tt
All-map (c ∷ cs) f h = (f c h.0, All-map cs f h.1)

pub IsName-Visible : (n : Bytes) → IsName n → Visible n
IsName-Visible n = All-map n (λ c h. (token_byte c h).1)

pub IsName-Lacks_equals : (n : Bytes) → IsName n → Lacks b'=' n
IsName-Lacks_equals n = All-map n (λ c h. (token_byte c h).2)

pub IsName-Lacks_semicolon : (n : Bytes) → IsName n → Lacks b';' n
IsName-Lacks_semicolon n = All-map n (λ c h. (token_byte c h).3)

pub IsValue-Visible : (v : Bytes) → IsValue v → Visible v
IsValue-Visible v = All-map v (λ c h. (cookie_byte c h).0)

pub IsValue-Lacks_semicolon : (v : Bytes) → IsValue v → Lacks b';' v
IsValue-Lacks_semicolon v = All-map v (λ c h. (cookie_byte c h).1)

pub sanitize_name-IsName : (n : Bytes) → IsName n → sanitize_name n ≡ n
unfolding sanitize_name
sanitize_name-IsName [] h = refl
sanitize_name-IsName (c ∷ cs) h =
    let (_, _, _, _, feed, ret) = token_byte c h.0 in
    rw (feed, ret) (ap (◌∷◌ c) (sanitize_name-IsName cs h.1))

pub sanitize_value-IsValue : (v : Bytes) → IsValue v → sanitize_value v ≡ v
unfolding sanitize_value
sanitize_value-IsValue [] h = refl
sanitize_value-IsValue (c ∷ cs) h =
    let (_, semi, _, feed, ret) = cookie_byte c h.0 in
    rw (feed, ret, semi) (ap (◌∷◌ c) (sanitize_value-IsValue cs h.1))

-- A name of token bytes is accepted.
pub is_cookie_name_valid-IsName : (n : Bytes) → IsName n → is_cookie_name_valid n ≡ true
unfolding is_cookie_name_valid
is_cookie_name_valid-IsName n h =
    rw (runes_ascii n (All-map n (λ c t. (token_byte c t).0) h))
      ((all_bytes_iff _ n).1 (All-map n whole h))
  where
    whole : (c : ℕ) → is_token c ≡ true → is_token (c % 256) ≡ true
    whole c t = let small : c < 256 = omega (arith, token_byte c t) in rw (mod-eq_of_lt small) t

unquote_cookie_value-IsValue : (v : Bytes) → IsValue v → unquote_cookie_value v ≡ v
unfolding unquote_cookie_value
unquote_cookie_value-IsValue [] h = refl
unquote_cookie_value-IsValue (c ∷ []) h = refl
unquote_cookie_value-IsValue (c ∷ d ∷ cs) h =
    let (_, _, quote, _, _) = cookie_byte c h.0 in rw quote

-- A value of cookie bytes is itself.
pub parse_cookie_value-IsValue : (v : Bytes) → IsValue v → parse_cookie_value v ≡ some v
unfolding parse_cookie_value
parse_cookie_value-IsValue v h =
    rw (unquote_cookie_value-IsValue v h, (all_bytes_iff is_cookie_byte v).1 h)
