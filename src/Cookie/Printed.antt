-- ===== src/Cookie/Printed.antt =====
-- The text that `Cookie.String` (http/cookie.go) writes stays on its line and in its attributes.
use go_http.Prelude.{
  ℕ, ◌<◌, zero, suc, ◌+◌, Bool, true, false, not, [], ◌∷◌, ◌++◌, ◌≡◌, refl, arith, Bytes, codes,
  count, count-append, if◌then◌else◌, ◌==◌, ◌⊎◌, inl, inr, is_empty, All,
}
use go_http.Int.{ℤ, pos, negsuc}
use go_http.Strconv.{itoa64, uitob64, digit_char}
use go_http.Strconv.Laws.{uitob64-All}
use go_http.Cookie.{TimeOps, Cookie, sanitize_name, sanitize_value}
use go_http.Cookie.SetCookie.{string, max_age_text, rfc1123, when}

-- a byte that ends a line or an attribute
abbrev pub IsStop : ℕ → Type 0
IsStop b = (b ≡ b'\n') ⊎ (b ≡ b'\r') ⊎ (b ≡ b';')

abbrev one : Bool → ℕ
one b = if b then 1 else 0

abbrev semicolon : ℕ → ℕ
semicolon b = if b == b';' then 1 else 0

abbrev has_max_age : ℤ → Bool
has_max_age (pos zero) = false
has_max_age _ = true

-- how many attributes a cookie has
abbrev pub attributes : (t : TimeOps) → Cookie t.Time → ℕ
attributes t c =
    one (not (is_empty c.path))
    + one (not (is_empty c.domain))
    + one (t.has_zone c.expires)
    + one (has_max_age c.max_age)
    + one c.http_only
    + one c.secure

count-sanitize_value : (b : ℕ) (v : Bytes) → IsStop b → count b (sanitize_value v) ≡ 0
unfolding sanitize_value count
count-sanitize_value b [] h = refl
count-sanitize_value b (c ∷ cs) h = ground (arith, count-sanitize_value b cs h)

count-sanitize_name :
    (b : ℕ) (v : Bytes)
    → IsStop b
    → count b (sanitize_name v) ≡ (if b == b';' then count b v else 0)
unfolding sanitize_name count
count-sanitize_name b [] h = ground arith
count-sanitize_name b (c ∷ cs) h = ground (arith, count-sanitize_name b cs h)

count-All : (b : ℕ) (s : Bytes) → All (λ c. (c == b) ≡ false) s → count b s ≡ 0
unfolding count
count-All b [] h = refl
count-All b (c ∷ cs) (e, h) = ground (arith, count-All b cs h)

digit_char-stop : (b : ℕ) → IsStop b → (d : ℕ) → d < 10 → (digit_char d == b) ≡ false
unfolding digit_char
digit_char-stop b h d k = ground arith

count-digits : (b n : ℕ) → IsStop b → count b (uitob64 n 10) ≡ 0
count-digits b n h =
    count-All b (uitob64 n 10)
      (uitob64-All 10 (omega arith) (λ c. (c == b) ≡ false) (digit_char-stop b h) n)

-- A label begins with the one semicolon that it has.
abbrev IsLabel : Bytes → Type 0
IsLabel s = (count b'\n' s ≡ 0) × (count b'\r' s ≡ 0) × (count b';' s ≡ 1)

count-label : (b : ℕ) (s : Bytes) → IsStop b → IsLabel s → count b s ≡ semicolon b
count-label b s (inl e) (x, y, z) = rw e x
count-label b s (inr (inl e)) (x, y, z) = rw e y
count-label b s (inr (inr e)) (x, y, z) = rw e z

module _ (t : TimeOps) where
  count-when :
      (b : ℕ) (p : Bool) (label v : Bytes)
      → IsStop b
      → IsLabel label
      → count b v ≡ 0
      → count b (when t p (label ++ v)) ≡ (if p then semicolon b else 0)
  count-when b true label v h l e =
      omega (arith, count-append b label v, count-label b label h l, e)
  count-when b false label v h l e = unfold count in refl

  count-flag :
      (b : ℕ) (p : Bool) (label : Bytes)
      → IsStop b
      → IsLabel label
      → count b (when t p label) ≡ (if p then semicolon b else 0)
  count-flag b true label h l = count-label b label h l
  count-flag b false label h l = unfold count in refl

  count-max_age_text :
      (b : ℕ) (n : ℤ)
      → IsStop b
      → count b (max_age_text t n) ≡ (if has_max_age n then semicolon b else 0)
  unfolding max_age_text itoa64
  count-max_age_text b (pos zero) h = unfold count in refl
  count-max_age_text b (pos (suc n)) h =
      count-when b true (codes "; Max-Age=") (uitob64 (suc n) 10) h
        (unfold count in (refl, refl, refl)) (count-digits b (suc n) h)
  count-max_age_text b (negsuc n) h =
      count-label b (codes "; Max-Age=0") h (unfold count in (refl, refl, refl))

  abbrev Plain : Type 0
  Plain = (b : ℕ) (x : t.Time) → IsStop b → count b (t.format x (rfc1123 t)) ≡ 0

  count-string :
      (b : ℕ) (c : Cookie t.Time)
      → IsStop b
      → Plain
      → count b (string t c)
        ≡ (if b == b';' then count b c.name else 0)
          + ((if not (is_empty c.path) then semicolon b else 0)
              + ((if not (is_empty c.domain) then semicolon b else 0)
                  + ((if t.has_zone c.expires then semicolon b else 0)
                      + ((if has_max_age c.max_age then semicolon b else 0)
                          + ((if c.http_only then semicolon b else 0)
                              + (if c.secure then semicolon b else 0))))))
  unfolding string
  count-string b c h plain =
      let flags = when t c.http_only (codes "; HttpOnly") ++ when t c.secure (codes "; Secure") in
      let aged = max_age_text t c.max_age ++ flags in
      let expiring =
        when t (t.has_zone c.expires) (codes "; Expires=" ++ t.format c.expires (rfc1123 t))
        ++ aged in
      let placed =
        when t (not (is_empty c.domain)) (codes "; Domain=" ++ sanitize_value c.domain)
        ++ expiring in
      let pathed =
        when t (not (is_empty c.path)) (codes "; Path=" ++ sanitize_value c.path) ++ placed in
      let equals : count b (b'=' ∷ sanitize_value c.value) ≡ 0 =
        unfold count in ground (arith, count-sanitize_value b c.value h) in
      omega (
        arith,
        count-append b (sanitize_name c.name ++ (b'=' ∷ sanitize_value c.value)) pathed,
        count-append b (sanitize_name c.name) (b'=' ∷ sanitize_value c.value),
        count-sanitize_name b c.name h,
        equals,
        count-append b (when t (not (is_empty c.path)) (codes "; Path=" ++ sanitize_value c.path))
            placed,
        count-when b (not (is_empty c.path)) (codes "; Path=") (sanitize_value c.path) h
            (unfold count in (refl, refl, refl)) (count-sanitize_value b c.path h),
        count-append b
            (when t (not (is_empty c.domain)) (codes "; Domain=" ++ sanitize_value c.domain))
            expiring,
        count-when b (not (is_empty c.domain)) (codes "; Domain=") (sanitize_value c.domain) h
            (unfold count in (refl, refl, refl)) (count-sanitize_value b c.domain h),
        count-append b
            (when t (t.has_zone c.expires) (codes "; Expires=" ++ t.format c.expires (rfc1123 t)))
            aged,
        count-when b (t.has_zone c.expires) (codes "; Expires=") (t.format c.expires (rfc1123 t)) h
            (unfold count in (refl, refl, refl)) (plain b c.expires h),
        count-append b (max_age_text t c.max_age) flags,
        count-max_age_text b c.max_age h,
        count-append b (when t c.http_only (codes "; HttpOnly"))
            (when t c.secure (codes "; Secure")),
        count-flag b c.http_only (codes "; HttpOnly") h (unfold count in (refl, refl, refl)),
        count-flag b c.secure (codes "; Secure") h (unfold count in (refl, refl, refl)),
      )

-- If the formatted dates have no line feed, carriage return or semicolon, then the text of a cookie has
-- no line feed and no carriage return, whatever its fields hold, and it has one semicolon for each
-- attribute of the cookie, but for those in its name.
pub string-attributes :
    (t : TimeOps) (c : Cookie t.Time)
    → ((b : ℕ) (x : t.Time) → IsStop b → count b (t.format x (rfc1123 t)) ≡ 0)
    → (count b'\n' (string t c) ≡ 0)
      × (count b'\r' (string t c) ≡ 0)
      × (count b';' (string t c) ≡ count b';' c.name + attributes t c)
string-attributes t c plain =
    let feed = count-string t b'\n' c (inl refl) plain in
    let return = count-string t b'\r' c (inr (inl refl)) plain in
    let semi = count-string t b';' c (inr (inr refl)) plain in
    (ground arith, ground arith, omega (arith, semi))
