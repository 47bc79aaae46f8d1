-- ===== src/Mime/Filled.antt =====
-- A header that `ReadMIMEHeader` has read: no key is there without a value.
use go_http.Prelude.{
  ◌≡◌, ◌≢◌, refl, sym, ap, ◌∙◌, inl, inr, List, [], ◌∷◌, ◌++◌, Option, none, some, Bytes,
  Bool-cases, if_true, if_false, str_eq,
}
use go_http.Header.{Header, lookup, index, values_of}
use go_http.Header.Maps.{lookup-assign}
use go_http.Mime.{append_value}
use go_http.Mime.Headers.{FieldLine, append_lines}

abbrev pub Filled : Header → Type 0
Filled m = (j : Bytes) → lookup j m ≢ some []

abbrev pub as_entry : List Bytes → Option (List Bytes)
as_entry [] = none
as_entry (v ∷ vs) = some (v ∷ vs)

filled_end : (xs : List Bytes) (v : Bytes) → some (xs ++ (v ∷ [])) ≢ some []
filled_end [] v e = cc
filled_end (x ∷ xs) v e = cc

append_value-Filled : (m : Header) (k v : Bytes) → Filled m → Filled (append_value m k v)
unfolding append_value
append_value-Filled m k v f j e =
    let found = lookup-assign k j (index m k ++ (v ∷ [])) m in
    elim (Bool-cases (str_eq k j)) [
      | inl same ↦ filled_end (index m k) v (sym (if_true (str_eq k j) _ _ same) ∙ sym found ∙ e)
      | inr other ↦ f j (sym (if_false (str_eq k j) _ _ other) ∙ sym found ∙ e)
    ]

pub append_lines-Filled : (ls : List FieldLine) (m : Header) → Filled m → Filled (append_lines ls m)
unfolding append_lines
append_lines-Filled [] m f = f
append_lines-Filled (l ∷ ls) m f =
    append_lines-Filled ls (append_value m l.0 l.1) (append_value-Filled m l.0 l.1 f)

pub nil-Filled : Filled []
unfolding lookup
nil-Filled j e = cc

by_values :
    (o : Option (List Bytes)) (vs : List Bytes) → o ≢ some [] → values_of o ≡ vs → o ≡ as_entry vs
by_values none [] h e = refl
by_values none (v ∷ vs) h e = absurd (cc)
by_values (some us) [] h e = absurd (h (ap some e))
by_values (some us) (v ∷ vs) h e = ap some e

-- What the values say of the entry.
pub lookup-values :
    (m : Header) (j : Bytes) (vs : List Bytes)
    → Filled m
    → index m j ≡ vs
    → lookup j m ≡ as_entry vs
lookup-values m j vs f e = by_values (lookup j m) vs (f j) e
