-- ===== src/Transfer/Framing.antt =====
-- What readTransfer (http/transfer.go) makes of the fields that frame a body.
use go_http.Prelude.{
  subst, List, [], ◌∷◌, none, Bytes, codes, ◌≡◌, refl, ap, sym, ◌∙◌, arith, str_eq, str_eq_iff,
  is_empty, split, trim_space, to_lower, All, ◌⊎◌, inl, inr, Option-cases, Bool-cases,
}
use go_http.Errors.{bad_string}
use go_http.Header.{Header, lookup, delete, get, del, canonical_header_key}
use go_http.Header.Maps.{lookup-delete}
use go_http.Transfer.{Outcome, ok, err, panics, ◌>>=◌}
use go_http.Transfer.Writer.{is_bad_trailer_key}
use go_http.Transfer.Reader
use go_http.Transfer.Reader.{
  fix_encodings, fix_transfer_encoding, fix_length, declared_length, default_length,
  fix_trailer_keys, fix_trailer, Head, request_head, Transferred, transferred, read_fields,
  read_transfer,
}

abbrev AllChunked : List Bytes → Type 0
AllChunked te = All (λ e. e ≡ codes "chunked") te

prepend :
    (x : Bytes) (o : Outcome (List Bytes)) (te : List Bytes)
    → x ≡ codes "chunked"
    → ((rest : List Bytes) → o ≡ ok rest → AllChunked rest)
    → (o >>= (λ rest. ok (x ∷ rest))) ≡ ok te
    → AllChunked te
prepend x (ok rest) te c h e = let e' : x ∷ rest ≡ te = ground arith in rw (sym e') (c, h rest refl)
prepend x (err y) te c h e = absurd (ground arith)
prepend x panics te c h e = absurd (ground arith)

only_chunked : (es te : List Bytes) → fix_encodings es ≡ ok te → AllChunked te
unfolding fix_encodings
only_chunked [] te e = let e' : [] ≡ te = ground arith in rw (sym e') tt
only_chunked (x ∷ es) te e =
    let y = to_lower (trim_space x) in
    elim (Bool-cases (str_eq y (codes "identity"))) [
      | inl i ↦ let e' : [] ≡ te = ground arith in rw (sym e') tt
      | inr i ↦ elim (Bool-cases (str_eq y (codes "chunked"))) [
        | inl c ↦
            prepend y (fix_encodings es) te ((str_eq_iff y (codes "chunked")).0 c) (only_chunked es)
              (rw (i, c, fix_encodings) at e)
        | inr c ↦ absurd (ground arith)
      ]
    ]

del_empty : (k : Bytes) → del [] k ≡ []
unfolding del delete
del_empty k = refl

trailer_keys_empty :
    (ks : List Bytes)
    → (fix_trailer_keys ks [] ≡ ok [])
      ⊎ ((key : Bytes) × (fix_trailer_keys ks [] ≡ err (bad_string (codes "bad trailer key") key)))
unfolding fix_trailer_keys
trailer_keys_empty [] = inl refl
trailer_keys_empty (k ∷ ks) =
    let key = canonical_header_key (trim_space k) in
    elim (Bool-cases (is_bad_trailer_key key)) [
      | inl b ↦ inr (key, rw b refl)
      | inr b ↦ rw (b, del_empty key) (trailer_keys_empty ks)
    ]

-- The loop deletes the keys that it reads from a map that is empty, so no message has a trailer after
-- `fixTrailer`: the outcome is no trailer or a bad key, whatever the header and the encodings.
pub fix_trailer-none :
    (header : Header) (te : List Bytes)
    → ((fix_trailer header te).1 ≡ ok none)
      ⊎ ((key : Bytes) × ((fix_trailer header te).1
            ≡ err (bad_string (codes "bad trailer key") key)))
unfolding fix_trailer
fix_trailer-none header te = elim (Bool-cases (is_empty (get header (codes "Trailer")))) [
  | inl b ↦ inl (rw b refl)
  | inr b ↦ elim (trailer_keys_empty (split b',' (get header (codes "Trailer")))) [
    | inl e ↦ inl (rw (b, e) refl)
    | inr (key, e) ↦ inr (key, rw (b, e) refl)
  ]
]

abbrev Encoded : Header → Outcome (List Bytes) → Type 0
Encoded h (ok []) = Unit
Encoded h (ok (e ∷ te)) =
    (e ∷ te ≡ codes "chunked" ∷ []) × (lookup (codes "Content-Length") h ≡ none)
Encoded h _ = Unit

chosen-Encoded :
    (h : Header) (o : Outcome (List Bytes))
    → ((te : List Bytes) → o ≡ ok te → AllChunked te)
    → Encoded (Reader.chosen_encodings h o).0 (Reader.chosen_encodings h o).1
chosen-Encoded h (ok []) k = tt
chosen-Encoded h (ok (e ∷ [])) k = (
  ap (λ x. x ∷ []) (k (e ∷ []) refl).0,
  rw (lookup-delete (codes "Content-Length") (codes "Content-Length") h) (unfold str_eq in refl),
)
chosen-Encoded h (ok (e ∷ f ∷ te)) k = tt
chosen-Encoded h (err x) k = tt
chosen-Encoded h panics k = tt

encodings-Encoded :
    (h : Header) (raw : List Bytes)
    → Encoded (Reader.encodings_of h raw).0 (Reader.encodings_of h raw).1
encodings-Encoded h [] = tt
encodings-Encoded h (raw ∷ more) =
    chosen-Encoded h (fix_encodings (split b',' raw)) (only_chunked (split b',' raw))

fix_transfer_encoding-Encoded :
    (method : Bytes) (h : Header)
    → Encoded (fix_transfer_encoding method h).0 (fix_transfer_encoding method h).1
unfolding fix_transfer_encoding
fix_transfer_encoding-Encoded method h =
    let cleared = delete (codes "Transfer-Encoding") h in
    let shown : (p : Header × Outcome (List Bytes))
        → fix_transfer_encoding method h ≡ p
        → Encoded p.0 p.1
        → Encoded (fix_transfer_encoding method h).0 (fix_transfer_encoding method h).1 =
      λ p e x. subst (λ q. Encoded q.0 q.1) (sym e) x in
    elim (Option-cases (lookup (codes "Transfer-Encoding") h)) [
      | inl e ↦ shown (h, ok []) (rw (e, fix_transfer_encoding) refl) tt
      | inr (raw, e) ↦ elim (Bool-cases (str_eq method (codes "HEAD"))) [
        | inl b ↦ shown (cleared, ok []) (rw (e, b, fix_transfer_encoding) refl) tt
        | inr b ↦
            shown (Reader.encodings_of cleared raw) (rw (e, b, fix_transfer_encoding) refl)
              (encodings-Encoded cleared raw)
      ]
    ]

of_Encoded :
    (h : Header) (o : Outcome (List Bytes)) (te : List Bytes)
    → Encoded h o
    → o ≡ ok te
    → (te ≡ []) ⊎ ((te ≡ codes "chunked" ∷ []) × (lookup (codes "Content-Length") h ≡ none))
of_Encoded h (ok []) te x e = inl (ground arith)
of_Encoded h (ok (y ∷ ys)) te (a, b) e = let e' : y ∷ ys ≡ te = ground arith in inr (sym e' ∙ a, b)
of_Encoded h (err y) te x e = absurd (ground arith)
of_Encoded h panics te x e = absurd (ground arith)

-- If `fixTransferEncoding` succeeds, then there is no transfer encoding, or it is "chunked" alone and
-- the header has lost its Content-Length.
pub fix_transfer_encoding_ok :
    (method : Bytes) (header : Header) (te : List Bytes)
    → (fix_transfer_encoding method header).1 ≡ ok te
    → (te ≡ [])
      ⊎ ((te ≡ codes "chunked" ∷ [])
          × (lookup (codes "Content-Length") (fix_transfer_encoding method header).0 ≡ none))
fix_transfer_encoding_ok method header te e =
    of_Encoded (fix_transfer_encoding method header).0 (fix_transfer_encoding method header).1 te
      (fix_transfer_encoding-Encoded method header) e
