-- ===== src/Cookie/Line.antt =====
-- A line of cookies, as `readCookies` (http/cookie.go) takes it apart.
use go_http.Prelude.{
  false, ◌||◌, List, [], ◌∷◌, ◌++◌, map, ◌≡◌, ◌≢◌, refl, ap, ◌∙◌, inl, inr, some, none, arith,
  Bytes, All, All-append, Lacks, Visible, BeginsVisible, EndsVisible, EndsVisible-append,
  EndsVisible-of_Visible, split, split-Lacks, split-append, trim_space, trim_left, split_onto,
  trim_space-visible, trim_space-blank, index_byte-append, take-length-append, drop-suc-append,
  is_empty-append_cons, is_empty, is_white, str_eq, append-nil, Option, if◌then◌else◌, Bool-cases,
}
use go_http.Cookie.{cut_at_equals, read_cookie_part, read_cookie_parts, read_cookie_line, is_blank}
use go_http.Cookie.Bytewise.{
  IsName, IsValue, IsName-Visible, IsName-Lacks_equals, IsName-Lacks_semicolon, IsValue-Visible,
  IsValue-Lacks_semicolon, is_cookie_name_valid-IsName, parse_cookie_value-IsValue,
}

-- `name=value`
abbrev pub pair : Bytes × Bytes → Bytes
pair (n, v) = n ++ (b'=' ∷ v)

abbrev pub IsPair : Bytes × Bytes → Type 0
IsPair (n, v) = IsName n × IsValue v

-- The cookies behind the first, each after a semicolon and a blank.
abbrev pub pairs_tail : List (Bytes × Bytes) → Bytes
pairs_tail [] = []
pairs_tail (c ∷ cs) = b';' ∷ b' ' ∷ (pair c ++ pairs_tail cs)

abbrev pub line : List (Bytes × Bytes) → Bytes
line [] = []
line (c ∷ cs) = pair c ++ pairs_tail cs

-- The cookies that a filter lets through.
abbrev pub keep : Bytes → List (Bytes × Bytes) → List (Bytes × Bytes)
keep filter [] = []
keep filter (c ∷ cs) =
    if is_empty filter || str_eq filter c.0 then c ∷ keep filter cs else keep filter cs

pair-Visible : (c : Bytes × Bytes) → IsPair c → Visible (pair c)
pair-Visible (n, v) (h, k) =
    All-append _ n (b'=' ∷ v) (IsName-Visible n h) (unfold is_white in refl, IsValue-Visible v k)

pair-Lacks : (c : Bytes × Bytes) → IsPair c → Lacks b';' (pair c)
pair-Lacks (n, v) (h, k) =
    All-append _ n (b'=' ∷ v) (IsName-Lacks_semicolon n h) (refl, IsValue-Lacks_semicolon v k)

append_cons-ne {ℓ} : {A : Type ℓ} (xs : List A) (y : A) (ys : List A) → xs ++ (y ∷ ys) ≢ []
append_cons-ne [] y ys e = cc
append_cons-ne (x ∷ xs) y ys e = cc

pair-Ends : (c : Bytes × Bytes) → IsPair c → EndsVisible (pair c)
pair-Ends (n, v) h = EndsVisible-of_Visible _ (append_cons-ne n b'=' v) (pair-Visible (n, v) h)

pair-Begins : (c : Bytes × Bytes) (rest : Bytes) → IsPair c → BeginsVisible (pair c ++ rest)
pair-Begins ([], v) rest h = unfold is_white in refl
pair-Begins (x ∷ n, v) rest h = (IsName-Visible (x ∷ n) h.0).0

pair-Begins_alone : (c : Bytes × Bytes) → IsPair c → BeginsVisible (pair c)
pair-Begins_alone ([], v) h = unfold is_white in refl
pair-Begins_alone (x ∷ n, v) h = (IsName-Visible (x ∷ n) h.0).0

pairs_tail-Ends :
    (s : Bytes) (cs : List (Bytes × Bytes))
    → EndsVisible s
    → All IsPair cs
    → EndsVisible (s ++ pairs_tail cs)
pairs_tail-Ends s [] e h = rw append-nil e
pairs_tail-Ends s (c ∷ cs) e h = EndsVisible-append s (pairs_tail (c ∷ cs)) (
    EndsVisible-append (b';' ∷ b' ' ∷ []) (pair c ++ pairs_tail cs)
      (pairs_tail-Ends (pair c) cs (pair-Ends c h.0) h.1))

split_pairs :
    (cs : List (Bytes × Bytes)) (s : Bytes)
    → Lacks b';' s
    → All IsPair cs
    → split b';' (s ++ pairs_tail cs) ≡ s ∷ map (λ c. b' ' ∷ pair c) cs
split_pairs [] s l h = rw append-nil (split-Lacks b';' s l)
split_pairs (c ∷ cs) s l h =
    split-append b';' s (b' ' ∷ (pair c ++ pairs_tail cs)) l
    ∙ ap (◌∷◌ s) (split_pairs cs (b' ' ∷ pair c) (refl, pair-Lacks c h.0) h.1)

cut_at_equals-pair : (n v : Bytes) → IsName n → cut_at_equals (pair (n, v)) ≡ (n, v)
unfolding cut_at_equals
cut_at_equals-pair n v h =
    rw (index_byte-append b'=' n v (IsName-Lacks_equals n h), cut_at_equals)
      (λ i. (take-length-append n (b'=' ∷ v) i, drop-suc-append n b'=' v i))

-- What one part of the line gives.
abbrev kept : Bytes → Bytes × Bytes → Option (Bytes × Bytes)
kept filter c = if is_empty filter || str_eq filter c.0 then some c else none

read_cookie_part-pair :
    (filter raw : Bytes) (c : Bytes × Bytes)
    → IsPair c
    → trim_space raw ≡ pair c
    → read_cookie_part filter raw ≡ kept filter c
unfolding read_cookie_part
read_cookie_part-pair filter raw (n, v) (h, k) e =
    rw
      (
        e,
        cut_at_equals-pair n v h,
        is_empty-append_cons n b'=' v,
        is_cookie_name_valid-IsName n h,
        parse_cookie_value-IsValue v k,
      )
      (rw (e, cut_at_equals-pair n v h) (ground arith))

-- One part of the line, put in front of what the others give.
read_cookie_parts-cons :
    (filter raw : Bytes) (ps : List Bytes) (c : Bytes × Bytes) (cs : List (Bytes × Bytes))
    → IsPair c
    → trim_space raw ≡ pair c
    → read_cookie_parts filter ps ≡ keep filter cs
    → read_cookie_parts filter (raw ∷ ps) ≡ keep filter (c ∷ cs)
unfolding read_cookie_parts
read_cookie_parts-cons filter raw ps c cs h e ih =
    rw (read_cookie_part-pair filter raw c h e, read_cookie_parts)
      (elim (Bool-cases (is_empty filter || str_eq filter c.0)) [
        | inl yes' ↦ rw yes' (ap (◌∷◌ c) ih)
        | inr no' ↦ rw no' ih
      ])

read_cookie_parts-pairs :
    (filter : Bytes) (cs : List (Bytes × Bytes))
    → All IsPair cs
    → read_cookie_parts filter (map (λ c. b' ' ∷ pair c) cs) ≡ keep filter cs
read_cookie_parts-pairs filter [] h = unfold read_cookie_parts in refl
read_cookie_parts-pairs filter (c ∷ cs) h =
    read_cookie_parts-cons filter (b' ' ∷ pair c) _ c cs h.0
      (trim_space-blank (pair c) (pair-Begins_alone c h.0) (pair-Ends c h.0))
      (read_cookie_parts-pairs filter cs h.1)

is_blank-pairs : (c : Bytes × Bytes) (ps : List Bytes) → is_blank (pair c ∷ ps) ≡ false
unfolding is_blank
is_blank-pairs (n, v) [] = is_empty-append_cons n b'=' v
is_blank-pairs c (p ∷ ps) = refl

-- A line of valid pairs is read back: all of them, or those of the name that is asked for, in order.
pub read_cookie_line-line :
    (filter : Bytes) (cs : List (Bytes × Bytes))
    → All IsPair cs
    → read_cookie_line filter (line cs) ≡ keep filter cs
unfolding read_cookie_line
read_cookie_line-line filter [] h = unfold trim_space trim_left split split_onto is_blank in refl
read_cookie_line-line filter (c ∷ cs) h =
    rw
      (
        trim_space-visible (line (c ∷ cs)) (pair-Begins c (pairs_tail cs) h.0)
            (pairs_tail-Ends (pair c) cs (pair-Ends c h.0) h.1),
        split_pairs cs (pair c) (pair-Lacks c h.0) h.1,
        is_blank-pairs c (map (λ c. b' ' ∷ pair c) cs),
        read_cookie_line,
      )
      (read_cookie_parts-cons filter (pair c) _ c cs h.0
        (trim_space-visible (pair c) (pair-Begins_alone c h.0) (pair-Ends c h.0))
        (read_cookie_parts-pairs filter cs h.1))
