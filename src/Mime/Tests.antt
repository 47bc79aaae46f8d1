-- ===== src/Mime/Tests.antt =====
-- The header round trip at a concrete header.
use go_http.Prelude.{
  ◌≡◌, ◌++◌, refl, [], ◌∷◌, Bytes, codes, All, map, if◌then◌else◌, all_bytes, lower, upper, str_eq,
}
use go_http.Header.{
  Header, index, lookup, is_excluded, write_subset, canonical_header_key, canonical_from,
}
use go_http.Chunked.{crlf}
use go_http.Transfer.{ok}
use go_http.Mime.{read_mime_header}
use go_http.Mime.Fields.{IsKey-of}
use go_http.Mime.Headers.{IsField, clean}
use go_http.Mime.Values.{Distinct, read_mime_header-write_subset}

abbrev fields : Header
fields =
    (codes "Via", codes "a" ∷ codes " b\nc " ∷ [])
    ∷ (codes "Host", codes "h" ∷ [])
    ∷ (codes "Accept", codes "*/*" ∷ [])
    ∷ []

fields-IsField : All IsField fields
unfolding all_bytes canonical_header_key canonical_from lower upper
fields-IsField = (
  (IsKey-of (codes "Via") refl refl, refl),
  ((IsKey-of (codes "Host") refl refl, refl), ((IsKey-of (codes "Accept") refl refl, refl), tt)),
)

fields-Distinct : Distinct fields
unfolding lookup str_eq
fields-Distinct = (refl, (refl, (refl, tt)))

read_mime_header-write_subset_example :
    (g : Header) × (read_mime_header
        (write_subset fields (codes "Host" ∷ []) ++ (crlf ++ codes "body"))
      ≡ ok (g, codes "body"))
    × ((j : Bytes)
        → index g j
          ≡ (if is_excluded (codes "Host" ∷ []) j then [] else map clean (index fields j)))
read_mime_header-write_subset_example =
    read_mime_header-write_subset fields (codes "Host" ∷ []) (codes "body") fields-IsField
      fields-Distinct
