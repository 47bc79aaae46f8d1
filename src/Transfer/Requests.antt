-- ===== src/Transfer/Requests.antt =====
-- The framing of requests by readTransfer (http/transfer.go).
use go_http.Prelude.{
  subst, ℕ, Bool, true, false, List, [], ◌∷◌, Option, none, some, Bytes, codes, ◌≡◌, refl, ap, sym,
  ◌∙◌, arith, str_eq, is_empty, trim_space, ◌⊎◌, inl, inr, Bool-cases,
}
use go_http.Int.{ℤ, pos, negsuc}
use go_http.Strconv.{atoi64}
use go_http.Header.{Header, get}
use go_http.Transfer.{Outcome, ok, err, panics, chunked, no_body_expected}
use go_http.Transfer.Writer.{minus_one}
use go_http.Transfer.Body.{chunked_reader, limited_reader}
use go_http.Transfer.Reader.{
  fix_transfer_encoding, fix_length, declared_length, default_length, fix_trailer, request_head,
  Transferred, transferred, read_fields, read_transfer, also,
}
use go_http.Transfer.Framing.{fix_transfer_encoding_ok, fix_trailer-none}

also-ok {ℓ κ} :
    {A : Type ℓ} {B : Type κ} (p : Header × Outcome A) (f : Header → A → Header × Outcome B) (b : B)
    → (also p f).1 ≡ ok b
    → (a : A) × (p.1 ≡ ok a) × ((f p.0 a).1 ≡ ok b)
also-ok (h, ok a) f b e = (a, refl, e)
also-ok (h, err x) f b e = absurd (ground arith)
also-ok (h, panics) f b e = absurd (ground arith)

ok_inj {ℓ} : {A : Type ℓ} (a b : A) → ok a ≡ ok b → a ≡ b
ok_inj a b e = ap (λ o. elim o [ ok x ↦ x | err x ↦ a | panics ↦ a ]) e

declared_natural : (cl : Bytes) (z : ℤ) → declared_length cl ≡ ok z → (n : ℕ) × (z ≡ pos n)
unfolding declared_length
declared_natural cl z e =
    elim (atoi64 cl) as (λ o. atoi64 cl ≡ o → (n : ℕ) × (z ≡ pos n)) [
      | none ↦ λ p. absurd (ground arith)
      | some (pos n) ↦ λ p. (n, sym (ok_inj (pos n) z (rw (p, declared_length) at e)))
      | some (negsuc n) ↦ λ p. absurd (ground arith)
    ]
      refl

abbrev LengthOf : Bool → ℤ → Type 0
LengthOf c z = ((c ≡ true) × (z ≡ minus_one)) ⊎ ((c ≡ false) × (n : ℕ) × (z ≡ pos n))

fix_length_request :
    (h : Header) (te : List Bytes) (z : ℤ)
    → (fix_length false 200 (codes "GET") h te).1 ≡ ok z
    → LengthOf (chunked te) z
unfolding fix_length no_body_expected str_eq default_length
fix_length_request h te z e = elim (Bool-cases (chunked te)) [
  | inl c ↦ inl (c, sym (ok_inj minus_one z (rw (c, fix_length) at e)))
  | inr c ↦ elim (Bool-cases (is_empty (trim_space (get h (codes "Content-Length"))))) [
    | inl b ↦ inr (c, 0, sym (ok_inj (pos 0) z (rw (c, b, fix_length) at e)))
    | inr b ↦
        let (n, natural) =
          declared_natural (trim_space (get h (codes "Content-Length"))) z
            (rw (c, b, fix_length) at e) in
        inr (c, n, natural)
  ]
]

trailer_none :
    (header : Header) (te : List Bytes) (tr : Option Header)
    → (fix_trailer header te).1 ≡ ok tr
    → tr ≡ none
trailer_none header te tr e = elim (fix_trailer-none header te) [
  | inl n ↦ sym (ok_inj none tr (sym n ∙ e))
  | inr (key, n) ↦ absurd (ground arith)
]

abbrev Framed : Bytes → Transferred → Type 0
Framed wire t =
    (((t.transfer_encoding ≡ codes "chunked" ∷ [])
        × (t.content_length ≡ minus_one)
        × (t.body.reader ≡ chunked_reader (record { wire = wire; n = 0; err = none })))
      ⊎ ((t.transfer_encoding ≡ [])
          × (n : ℕ) × (t.content_length ≡ pos n)
          × (t.body.reader ≡ limited_reader n wire)))
    × (t.trailer ≡ none)
    × (t.close ≡ false)

transferred-Framed :
    (te : List Bytes) (z : ℤ) (wire : Bytes)
    → (te ≡ []) ⊎ (te ≡ codes "chunked" ∷ [])
    → LengthOf (chunked te) z
    → Framed wire (transferred false 200 false te z none wire)
unfolding transferred chunked str_eq
transferred-Framed te (pos n) wire (inl e) l = rw e (inr (refl, n, refl, refl), refl, refl)
transferred-Framed te (negsuc n) wire (inl e) l = absurd (ground arith)
transferred-Framed te z wire (inr e) l = rw e (inl (refl, ground arith, refl), refl, refl)

-- A request that `readTransfer` accepts is framed in one of two ways, both of which end: by the chunked
-- coding alone, or by a length that is not negative and no coding. It has no trailer, and does not ask
-- that the connection is closed.
pub read_transfer_request :
    (major minor : ℕ) (header : Header) (wire : Bytes) (t : Transferred)
    → (read_transfer (request_head major minor) header wire).1 ≡ ok t
    → (((t.transfer_encoding ≡ codes "chunked" ∷ [])
          × (t.content_length ≡ minus_one)
          × (t.body.reader ≡ chunked_reader (record { wire = wire; n = 0; err = none })))
        ⊎ ((t.transfer_encoding ≡ [])
            × (n : ℕ) × (t.content_length ≡ pos n)
            × (t.body.reader ≡ limited_reader n wire)))
      × (t.trailer ≡ none)
      × (t.close ≡ false)
unfolding read_transfer read_fields
read_transfer_request major minor header wire t e =
    let (te, te_ok, e1) = also-ok (fix_transfer_encoding (codes "GET") header) _ t e in
    let h1 = (fix_transfer_encoding (codes "GET") header).0 in
    let (z, z_ok, e2) = also-ok (fix_length false 200 (codes "GET") h1 te) _ t e1 in
    let h2 = (fix_length false 200 (codes "GET") h1 te).0 in
    let (tr, tr_ok, e3) = also-ok (fix_trailer h2 te) _ t e2 in
    let no_trailer = trailer_none h2 te tr tr_ok in
    let coding : (te ≡ []) ⊎ (te ≡ codes "chunked" ∷ []) =
      elim (fix_transfer_encoding_ok (codes "GET") header te te_ok) [
        | inl n ↦ inl n
        | inr (c, _) ↦ inr c
      ] in
    subst (Framed wire)
      (ok_inj (transferred false 200 false te z none wire) t (rw no_trailer at e3))
      (transferred-Framed te z wire coding (fix_length_request h1 te z z_ok))
