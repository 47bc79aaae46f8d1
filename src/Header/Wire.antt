-- ===== src/Header/Wire.antt =====
-- The wire form that `WriteSubset` (http/header.go) gives a header.
use go_http.Prelude.{
  ℕ, ◌+◌, List, [], ◌∷◌, ◌++◌, ◌⊎◌, ◌≡◌, refl, ◌∙◌, arith, Bytes, All, codes, length, trim_space,
  if_intro, inl, inr, count, count-append, count-trim_space,
}
use go_http.Header.{
  Header, newline_to_space, header_line, header_lines, insert_entry, sort_entries, write_entries,
  is_excluded, included, write_subset, str_lt,
}

-- A line feed or a carriage return.
abbrev pub IsBreak : ℕ → Type 0
IsBreak b = (b ≡ b'\n') ⊎ (b ≡ b'\r')

pub count-newline_to_space : (b : ℕ) (v : Bytes) → IsBreak b → count b (newline_to_space v) ≡ 0
unfolding newline_to_space count
count-newline_to_space b [] h = refl
count-newline_to_space b (c ∷ cs) h = ground (arith, count-newline_to_space b cs h)

-- A line holds one break of each kind if its key holds none.
count-header_line :
    (b : ℕ) (k v : Bytes) → IsBreak b → count b k ≡ 0 → count b (header_line k v) ≡ 1
unfolding header_line
count-header_line b k v h clean =
    let value = trim_space (newline_to_space v) in
    let colon : count b (codes ": ") ≡ 0 = unfold count in ground arith in
    let ending : count b (codes "\r\n") ≡ 1 = unfold count in ground arith in
    omega (
      arith,
      count-append b k (codes ": " ++ (value ++ codes "\r\n")),
      count-append b (codes ": ") (value ++ codes "\r\n"),
      count-append b value (codes "\r\n"),
      count-trim_space b (newline_to_space v),
      count-newline_to_space b v h,
    )

-- How many values the keys of a header have.
abbrev pub values : Header → ℕ
values [] = 0
values ((k, vs) ∷ h) = length vs + values h

abbrev pub CleanKeys : Header → Type 0
CleanKeys = All (λ e. (count b'\n' e.0 ≡ 0) × (count b'\r' e.0 ≡ 0))

count-header_lines :
    (b : ℕ) (k : Bytes) (vs : List Bytes)
    → IsBreak b
    → count b k ≡ 0
    → count b (header_lines k vs) ≡ length vs
unfolding header_lines
count-header_lines b k [] h clean = unfold count in refl
count-header_lines b k (v ∷ vs) h clean = omega (
  arith,
  count-append b (header_line k v) (header_lines k vs),
  count-header_line b k v h clean,
  count-header_lines b k vs h clean,
)

count-write_entries :
    (b : ℕ) (h : Header) → IsBreak b → CleanKeys h → count b (write_entries h) ≡ values h
unfolding write_entries
count-write_entries b [] br clean = unfold count in refl
count-write_entries b ((k, vs) ∷ h) br (c, clean) = omega (
  arith,
  count-append b (header_lines k vs) (write_entries h),
  count-header_lines b k vs br (key_clean br),
  count-write_entries b h br clean,
)
  where
    key_clean : IsBreak b → count b k ≡ 0
    key_clean (inl e) = rw e c.0
    key_clean (inr e) = rw e c.1

count-write_entries_cons :
    (b : ℕ) (e : Bytes × List Bytes) (h : Header)
    → count b (write_entries (e ∷ h)) ≡ count b (header_lines e.0 e.1) + count b (write_entries h)
unfolding write_entries
count-write_entries_cons b (k, vs) h = count-append b (header_lines k vs) (write_entries h)

count-insert_entry :
    (b : ℕ) (e : Bytes × List Bytes) (h : Header)
    → count b (write_entries (insert_entry e h)) ≡ count b (write_entries (e ∷ h))
unfolding insert_entry
count-insert_entry b e [] = refl
count-insert_entry b e (f ∷ h) =
    if_intro (λ r. count b (write_entries r) ≡ count b (write_entries (e ∷ f ∷ h))) (str_lt f.0 e.0)
      (omega (
        arith,
        count-write_entries_cons b f (insert_entry e h),
        count-insert_entry b e h,
        count-write_entries_cons b e h,
        count-write_entries_cons b e (f ∷ h),
        count-write_entries_cons b f h,
      ))
      refl

count-sort_entries :
    (b : ℕ) (h : Header) → count b (write_entries (sort_entries h)) ≡ count b (write_entries h)
unfolding sort_entries
count-sort_entries b [] = refl
count-sort_entries b (e ∷ h) =
    count-insert_entry b e (sort_entries h)
    ∙ count-write_entries_cons b e (sort_entries h)
    ∙ omega (arith, count-sort_entries b h, count-write_entries_cons b e h)

included-CleanKeys :
    (exclude : List Bytes) (h : Header) → CleanKeys h → CleanKeys (included exclude h)
unfolding included
included-CleanKeys exclude [] clean = tt
included-CleanKeys exclude ((k, vs) ∷ h) (c, clean) =
    if_intro CleanKeys (is_excluded exclude k) (included-CleanKeys exclude h clean)
      (c, included-CleanKeys exclude h clean)

-- No value breaks out of its line: if no key holds a line feed or a carriage return, the text that
-- `WriteSubset` writes has exactly one of each for each value of the keys that are not excluded,
-- whatever bytes the values hold.
pub count-write_subset :
    (h : Header) (exclude : List Bytes)
    → CleanKeys h
    → (count b'\n' (write_subset h exclude) ≡ values (included exclude h))
      × (count b'\r' (write_subset h exclude) ≡ values (included exclude h))
unfolding write_subset
count-write_subset h exclude clean =
    let kept = included exclude h in
    let clean' = included-CleanKeys exclude h clean in
    (
      count-sort_entries _ kept ∙ count-write_entries _ kept (inl refl) clean',
      count-sort_entries _ kept ∙ count-write_entries _ kept (inr refl) clean',
    )
