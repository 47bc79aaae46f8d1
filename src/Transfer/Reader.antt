-- ===== src/Transfer/Reader.antt =====
-- readTransfer of http/transfer.go and the functions that it calls. They change the header that they
-- are given, so each returns the header as it is then, with its outcome.
use go_http.Prelude.{
  ℕ, Bool, true, false, not, ◌&&◌, ◌||◌, List, [], ◌∷◌, Option, none, some, Bytes, codes, str_eq,
  is_empty, ltb, ◌==◌, ◌/◌, if◌then◌else◌, split, join, trim_space, to_lower, contains,
}
use go_http.Int.{ℤ, pos, negsuc}
use go_http.Strconv.{atoi64}
use go_http.Errors.{bad_string, not_supported, unexpected_trailer}
use go_http.Header.{Header, lookup, delete, get, del, canonical_header_key}
use go_http.Transfer.{
  Outcome, ok, err, panics, ◌>>=◌, chunked, no_body_expected, body_allowed_for_status,
}
use go_http.Transfer.Writer.{minus_one, is_negative, is_bad_trailer_key}
use go_http.Transfer.Body.{Body, BodyReader, chunked_reader, limited_reader, whole_reader}

-- the loop over the encodings
unfoldable pub fix_encodings : List Bytes → Outcome (List Bytes)
fix_encodings [] = ok []
fix_encodings (e ∷ es) =
    let encoding = to_lower (trim_space e) in
    let rest = fix_encodings es in
    if str_eq encoding (codes "identity")
    then ok []
    else if str_eq encoding (codes "chunked")
    then rest >>= (λ te. ok (encoding ∷ te))
    else err (bad_string (codes "unsupported transfer encoding") encoding)

-- the tests on the encodings found
abbrev pub chosen_encodings : Header → Outcome (List Bytes) → Header × Outcome (List Bytes)
chosen_encodings header (ok []) = (header, ok [])
chosen_encodings header (ok (e ∷ [])) = (delete (codes "Content-Length") header, ok (e ∷ []))
chosen_encodings header (ok (e ∷ f ∷ te)) =
    (header, err (bad_string (codes "too many transfer encodings") (join (codes ",") (e ∷ f ∷ te))))
chosen_encodings header other = (header, other)

-- `raw[0]` and what is done with it
abbrev pub encodings_of : Header → List Bytes → Header × Outcome (List Bytes)
encodings_of header [] = (header, panics)
encodings_of header (raw ∷ _) = chosen_encodings header (fix_encodings (split b',' raw))

-- `fixTransferEncoding`
unfoldable pub fix_transfer_encoding : Bytes → Header → Header × Outcome (List Bytes)
unfolding fix_encodings
fix_transfer_encoding request_method header = elim (lookup (codes "Transfer-Encoding") header) [
  | none ↦ (header, ok [])
  | some raw ↦
      let cleared = delete (codes "Transfer-Encoding") header in
      if str_eq request_method (codes "HEAD") then (cleared, ok []) else encodings_of cleared raw
]

-- the Content-Length as a number
unfoldable pub declared_length : Bytes → Outcome ℤ
unfolding atoi64
declared_length cl = elim (atoi64 cl) [
  | none ↦ err (bad_string (codes "bad Content-Length") cl)
  | some n ↦ if is_negative n then err (bad_string (codes "bad Content-Length") cl) else ok n
]

-- the part of `fixLength` behind the Content-Length
unfoldable pub default_length : Bool → Bytes → Header → Outcome ℤ
default_length is_response request_method header =
    if not is_response && str_eq request_method (codes "GET")
    then ok (pos 0)
    else if contains (to_lower (get header (codes "Content-Type"))) (codes "multipart/byteranges")
    then err not_supported
    else ok minus_one

-- `fixLength`
unfoldable pub fix_length : Bool → ℕ → Bytes → Header → List Bytes → Header × Outcome ℤ
unfolding declared_length default_length
fix_length is_response status request_method header te =
    let cl = trim_space (get header (codes "Content-Length")) in
    let without = del header (codes "Content-Length") in
    if no_body_expected request_method
    then (header, ok (pos 0))
    else if status / 100 == 1
    then (header, ok (pos 0))
    else if status == 204 || status == 304
    then (header, ok (pos 0))
    else if chunked te
    then (header, ok minus_one)
    else if not (is_empty cl)
    then (header, declared_length cl)
    else (without, default_length is_response request_method without)

-- `shouldClose`
unfoldable pub should_close : ℕ → ℕ → Header → Header × Bool
should_close major minor header =
    let connection = to_lower (get header (codes "Connection")) in
    if ltb major 1
    then (header, true)
    else if major == 1 && minor == 0
    then (header, not (contains connection (codes "keep-alive")))
    else if str_eq connection (codes "close")
    then (del header (codes "Connection"), true)
    else (header, false)

-- the loop over the keys that the header Trailer names
unfoldable pub fix_trailer_keys : List Bytes → Header → Outcome Header
fix_trailer_keys [] trailer = ok trailer
fix_trailer_keys (k ∷ ks) trailer =
    let key = canonical_header_key (trim_space k) in
    let rest = fix_trailer_keys ks (del trailer key) in
    if is_bad_trailer_key key then err (bad_string (codes "bad trailer key") key) else rest

abbrev checked_trailer : List Bytes → Header → Outcome (Option Header)
checked_trailer te trailer =
    if is_empty trailer
    then ok none
    else if not (chunked te)
    then err unexpected_trailer
    else ok (some trailer)

-- `fixTrailer`
unfoldable pub fix_trailer : Header → List Bytes → Header × Outcome (Option Header)
unfolding fix_trailer_keys
fix_trailer header te =
    let raw = get header (codes "Trailer") in
    let after = del header (codes "Trailer") in
    if is_empty raw
    then (header, ok none)
    else (after, fix_trailer_keys (split b',' raw) [] >>= checked_trailer te)

-- What `readTransfer` reads of a message: a request, or a response with the method of its request.
pub data Head : Type 0 where
  request_head : (proto_major proto_minor : ℕ) → Head
  response_head : (status : ℕ) → (method : Option Bytes) → (proto_major proto_minor : ℕ) → Head

-- the output of the `transferReader`
pub record Transferred : Type 0 where
  pub body : Body
  pub content_length : ℤ
  pub transfer_encoding : List Bytes
  pub close : Bool
  pub trailer : Option Header

-- the reader of a body that is not chunked
abbrev plain_reader : ℤ → Bool → Bytes → BodyReader
plain_reader (pos n) close wire = limited_reader n wire
plain_reader (negsuc n) close wire = if close then whole_reader wire else limited_reader 0 wire

-- the body's reader on the connection's bytes
abbrev pub body_reader : List Bytes → ℤ → Bool → Bytes → BodyReader
body_reader te content_length close wire =
    if chunked te
    then chunked_reader (record { wire = wire; n = 0; err = none })
    else plain_reader content_length close wire

-- the outcome from the fixed fields
unfoldable pub transferred : Bool → ℕ → Bool → List Bytes → ℤ → Option Header → Bytes → Transferred
transferred is_response status close te content_length trailer wire =
    let unbounded =
      is_response
      && (is_negative content_length && not (chunked te))
      && body_allowed_for_status status in
    let closing = close || unbounded in
    record {
      body = record {
        reader = body_reader te content_length closing wire;
        trailing = chunked te;
        closing = closing;
        closed = false;
        request_body_limit_hit = false;
      };
      content_length = content_length;
      transfer_encoding = te;
      close = closing;
      trailer = trailer;
    }

abbrev pub also {ℓ κ} :
    {A : Type ℓ} {B : Type κ}
    → Header × Outcome A
    → (Header → A → Header × Outcome B)
    → Header × Outcome B
also (h, ok a) f = f h a
also (h, err e) f = (h, err e)
also (h, panics) f = (h, panics)

-- the fixes, from the unified input
unfoldable pub read_fields : Bool → ℕ → Bytes → Bool → Header → Bytes → Header × Outcome Transferred
unfolding fix_transfer_encoding fix_length fix_trailer transferred
read_fields is_response status request_method close header wire =
    also (fix_transfer_encoding request_method header) (λ h te.
      also (fix_length is_response status request_method h te) (λ g content_length.
        also (fix_trailer g te) (λ i trailer.
          (i, ok (transferred is_response status close te content_length trailer wire)))))

-- `readTransfer`: a request is read like a response to GET with status 200
unfoldable pub read_transfer : Head → Header → Bytes → Header × Outcome Transferred
unfolding read_fields should_close
read_transfer (request_head major minor) header wire =
    read_fields false 200 (codes "GET") false header wire
read_transfer (response_head status none major minor) header wire = (header, panics)
read_transfer (response_head status (some method) major minor) header wire =
    let (h, close) = should_close major minor header in read_fields true status method close h wire
