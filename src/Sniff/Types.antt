-- ===== src/Sniff/Types.antt =====
-- What `DetectContentType` (http/sniff.go) returns.
use go_http.Prelude.{
  ℕ, false, List, [], ◌∷◌, ◌++◌, Bytes, codes, ◌≡◌, ◌≢◌, refl, ap, arith, is_empty, take, ◌⊎◌, inl,
  inr, All,
}
use go_http.Sniff.{
  SniffSig, exact_sig, masked_sig, html_sig, text_sig, match, first_match, sniff_signatures,
  skip_ws, sniff_len, detect_content_type,
}

-- the content type of a signature
abbrev pub type_of : SniffSig → Bytes
type_of (exact_sig sig ct) = ct
type_of (masked_sig mask pat skip ct) = ct
type_of (html_sig h) = codes "text/html; charset=utf-8"
type_of text_sig = codes "text/plain; charset=utf-8"

match_own :
    (sig : SniffSig) (text : Bytes) (n : ℕ)
    → (match sig text n ≡ []) ⊎ (match sig text n ≡ type_of sig)
unfolding match
match_own (exact_sig sig ct) text n = ground arith
match_own (masked_sig mask pat skip ct) text n = ground arith
match_own (html_sig h) text n = ground arith
match_own text_sig text n = ground arith

module _ (text : Bytes) (n : ℕ) where
  abbrev pub Refused : List SniffSig → Type 0
  Refused sigs = All (λ s. match s text n ≡ []) sigs

  abbrev pub Found : List SniffSig → Type 0
  Found sigs =
      (before : List SniffSig) × (sig : SniffSig) × (after : List SniffSig) × (sigs
        ≡ before ++ (sig ∷ after))
      × Refused before
      × (match sig text n ≢ [])
      × (first_match sigs text n ≡ type_of sig)

  ct_cases : (ct : Bytes) → (ct ≡ []) ⊎ ((is_empty ct ≡ false) × (ct ≢ []))
  ct_cases [] = inl refl
  ct_cases (c ∷ cs) = inr (refl, λ e. absurd (ground arith))

  own : (sig : SniffSig) → match sig text n ≢ [] → match sig text n ≡ type_of sig
  own sig ne = elim (match_own sig text n) [ inl e ↦ absurd (ne e) | inr e ↦ e ]

  first_match-Found :
      (sigs : List SniffSig)
      → Found sigs ⊎ (Refused sigs × (first_match sigs text n ≡ codes "application/octet-stream"))
  unfolding first_match
  first_match-Found [] = inr (tt, refl)
  first_match-Found (sig ∷ sigs) = elim (ct_cases (match sig text n)) [
    | inr (b, ne) ↦ inl ([], sig, sigs, refl, tt, ne, rw (first_match, b) (own sig ne))
    | inl e ↦ elim (first_match-Found sigs) [
      | inl (before, s, after, eq, refused, ne, found) ↦
          inl (sig ∷ before, s, after, ap (◌∷◌ sig) eq, (e, refused), ne, rw (first_match, e) found)
      | inr (refused, found) ↦ inr ((e, refused), rw (first_match, e) found)
    ]
  ]

abbrev pub Shown : Bytes → Bytes → ℕ → Type 0
Shown ct text n =
    ((before : List SniffSig) × (sig : SniffSig) × (after : List SniffSig) × (sniff_signatures
        ≡ before ++ (sig ∷ after))
      × All (λ s. match s text n ≡ []) before
      × (match sig text n ≢ [])
      × (ct ≡ type_of sig))
    ⊎ (All (λ s. match s text n ≡ []) sniff_signatures × (ct ≡ codes "application/octet-stream"))

-- `DetectContentType` looks at the first 512 bytes only. It returns the type of the first signature in
-- the table that matches them, or "application/octet-stream" if none does.
pub detect_content_type_first :
    (text : Bytes)
    → Shown (detect_content_type text) (take sniff_len text) (skip_ws (take sniff_len text))
unfolding detect_content_type
detect_content_type_first text =
    first_match-Found (take sniff_len text) (skip_ws (take sniff_len text)) sniff_signatures
