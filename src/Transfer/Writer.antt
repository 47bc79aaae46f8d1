-- ===== src/Transfer/Writer.antt =====
-- The transferWriter of http/transfer.go. The writer below it takes all that is written to it; a body
-- is a list of the pieces that its reads return, then `os.EOF` or an error of its own.
use go_http.Prelude.{
  ℕ, zero, Bool, true, false, not, ◌&&◌, ◌||◌, List, [], ◌∷◌, ◌++◌, Option, none, some, Bytes,
  codes, str_eq, is_empty, length, take, flatten, ◌==◌, if◌then◌else◌,
}
use go_http.Int.{ℤ, pos, negsuc}
use go_http.Strconv.{itoa64}
use go_http.Errors.{Error, missing_content_length, nil_body, body_length, bad_string}
use go_http.Header.{Header, canonical_header_key}
use go_http.Chunked.{crlf, chunks, close_chunks}
use go_http.Transfer.{
  Outcome, ok, err, panics, ◌>>=◌, chunked, is_identity, no_body_expected, proto_at_least,
}

-- an `io.ReadCloser`
pub record Source : Type 0 where
  pub pieces : List Bytes
  -- `none` for `os.EOF`
  pub read_error : Option Error
  pub close_error : Option Error

-- The fields of a Request or a Response that `newTransferWriter` reads.
pub record Message : Type 0 where
  pub method : Bytes
  pub body : Option Source
  pub content_length : ℤ
  pub close : Bool
  pub transfer_encoding : List Bytes
  pub trailer : Option Header
  pub proto_major : ℕ
  pub proto_minor : ℕ

-- `r interface{}`; a response comes with the method of its request, if it has a request
pub data Sending : Type 0 where
  request : Message → Sending
  response : Option Bytes → Message → Sending

-- `transferWriter`
pub record TransferWriter : Type 0 where
  pub method : Bytes
  pub body : Option Source
  pub response_to_head : Bool
  pub content_length : ℤ
  pub close : Bool
  pub transfer_encoding : List Bytes
  pub trailer : Option Header

abbrev pub is_none {ℓ} : {A : Type ℓ} → Option A → Bool
is_none none = true
is_none (some a) = false

abbrev pub is_zero : ℤ → Bool
is_zero (pos zero) = true
is_zero _ = false

abbrev pub is_negative : ℤ → Bool
is_negative (pos n) = false
is_negative (negsuc n) = true

abbrev pub minus_one : ℤ
minus_one = negsuc 0

-- The pieces with the first byte stitched back in front, or `none` if there is no byte.
unfoldable pub peek : List Bytes → Option (List Bytes)
peek [] = none
peek ([] ∷ ps) = peek ps
peek ((c ∷ cs) ∷ ps) = some ((c ∷ []) ∷ cs ∷ ps)

-- `t.ContentLength == 0`: the test whether it is actually zero or just unset
unfoldable pub probe : TransferWriter → Source → TransferWriter
unfolding peek
probe t s = elim (peek s.pieces) [
  | none ↦ record t { body = none }
  | some ps ↦ record t { body = some (record s { pieces = ps }); content_length = minus_one }
]

abbrev chunk_if_unknown : TransferWriter → TransferWriter
chunk_if_unknown t =
    if is_negative t.content_length
    then record t { transfer_encoding = codes "chunked" ∷ [] }
    else t

-- the fields that are copied from the message
abbrev pub extract : Bytes → Bool → Message → TransferWriter
extract method head m = record {
  method = method;
  body = m.body;
  response_to_head = head;
  content_length = m.content_length;
  close = m.close;
  transfer_encoding = m.transfer_encoding;
  trailer = m.trailer;
}

-- the block under `t.Body != nil && len(t.TransferEncoding) == 0 && atLeastHTTP11`
unfoldable pub guess_length : TransferWriter → Option Source → TransferWriter
unfolding probe
guess_length t none = t
guess_length t (some s) = chunk_if_unknown (if is_zero t.content_length then probe t s else t)

-- `case *Request`
unfoldable pub from_request : Message → Outcome TransferWriter
unfolding guess_length
from_request m =
    let t = extract m.method false m in
    if not (is_zero m.content_length) && is_none m.body
    then err (nil_body m.content_length)
    else if is_empty m.transfer_encoding && proto_at_least m.proto_major m.proto_minor 1 1
    then ok (guess_length t m.body)
    else ok t

-- `case *Response`, which reads `rr.Request.Method` whether or not there is a request
unfoldable pub from_response : Option Bytes → Message → Outcome TransferWriter
from_response none m = panics
from_response (some method) m = ok (extract method (no_body_expected method) m)

abbrev is_some {ℓ} : {A : Type ℓ} → Option A → Bool
is_some o = not (is_none o)

-- the part under `t.ResponseToHEAD`
unfoldable pub sanitize_head : TransferWriter → Outcome TransferWriter
sanitize_head t =
    if is_negative t.content_length
    then err missing_content_length
    else ok (record t { body = none; transfer_encoding = [] })

-- the other part
unfoldable pub sanitize_body : Bool → TransferWriter → TransferWriter
sanitize_body at_least_http11 t =
    let te = if not at_least_http11 || is_none t.body then [] else t.transfer_encoding in
    record t {
      transfer_encoding = te;
      content_length =
          if chunked te then minus_one else if is_none t.body then pos 0 else t.content_length;
    }

-- `Sanitize Trailer`
unfoldable pub sanitize_trailer : TransferWriter → TransferWriter
sanitize_trailer t = record t { trailer = if chunked t.transfer_encoding then t.trailer else none }

unfoldable pub sanitize : Bool → TransferWriter → Outcome TransferWriter
unfolding sanitize_head sanitize_body sanitize_trailer
sanitize at_least_http11 t = do
  u ← if t.response_to_head then sanitize_head t else ok (sanitize_body at_least_http11 t)
  ok (sanitize_trailer u)

abbrev pub message : Sending → Message
message (request m) = m
message (response method m) = m

unfoldable pub extracted : Sending → Outcome TransferWriter
unfolding from_request from_response
extracted (request m) = from_request m
extracted (response method m) = from_response method m

-- `newTransferWriter`
unfoldable pub new_transfer_writer : Sending → Outcome TransferWriter
unfolding extracted sanitize
new_transfer_writer r = do
  t ← extracted r
  sanitize (proto_at_least (message r).proto_major (message r).proto_minor 1 1) t

-- `shouldSendContentLength`
unfoldable pub should_send_content_length : TransferWriter → Bool
should_send_content_length t =
    if chunked t.transfer_encoding
    then false
    else if not (is_negative t.content_length) && not (is_zero t.content_length)
    then true
    else if t.response_to_head
    then true
    else if str_eq t.method (codes "POST") || str_eq t.method (codes "PUT")
    then true
    else is_zero t.content_length && is_identity t.transfer_encoding

-- the keys that a trailer may not have
unfoldable pub is_bad_trailer_key : Bytes → Bool
is_bad_trailer_key k =
    str_eq k (codes "Transfer-Encoding")
    || str_eq k (codes "Trailer")
    || str_eq k (codes "Content-Length")

-- the loop over the keys of the trailer
unfoldable pub trailer_keys : Bool → Header → Bytes × Option Error
unfolding is_bad_trailer_key
trailer_keys need_comma [] = (codes "\r\n", none)
trailer_keys need_comma ((key, vs) ∷ h) =
    let k = canonical_header_key key in
    let (rest, e) = trailer_keys true h in
    if is_bad_trailer_key k
    then ([], some (bad_string (codes "invalid Trailer key") k))
    else ((if need_comma then codes "," else []) ++ (k ++ rest), e)

unfoldable pub write_trailer : Option Header → Bytes × Option Error
unfolding trailer_keys
write_trailer none = ([], none)
write_trailer (some h) = let (text, e) = trailer_keys false h in (codes "Trailer: " ++ text, e)

-- the line on the length or on the coding
unfoldable pub length_line : TransferWriter → Bytes
unfolding should_send_content_length
length_line t =
    if should_send_content_length t
    then codes "Content-Length: " ++ (itoa64 t.content_length ++ codes "\r\n")
    else if chunked t.transfer_encoding
    then codes "Transfer-Encoding: chunked\r\n"
    else []

-- `transferWriter.WriteHeader`: the text, and the error
unfoldable pub write_header : TransferWriter → Bytes × Option Error
unfolding length_line write_trailer
write_header t =
    let (trailer, e) = write_trailer t.trailer in
    ((if t.close then codes "Connection: close\r\n" else []) ++ (length_line t ++ trailer), e)

-- `t.ContentLength != -1 && t.ContentLength != ncopy`, and the last lines of `WriteBody`
abbrev pub equal_ℤ : ℤ → ℤ → Bool
equal_ℤ (pos a) (pos b) = a == b
equal_ℤ (negsuc a) (negsuc b) = a == b
equal_ℤ _ _ = false

unfoldable pub finish_body : TransferWriter → Bytes → ℕ → Bytes × Option Error
finish_body t out ncopy =
    if not (equal_ℤ t.content_length minus_one) && not (equal_ℤ t.content_length (pos ncopy))
    then (out, some (body_length t.content_length (pos ncopy)))
    else if chunked t.transfer_encoding
    then (out ++ crlf, none)
    else (out, none)

abbrev or_error : Option Error → Bytes → Bytes × Option Error → Bytes × Option Error
or_error none out r = r
or_error (some e) out r = (out, some e)

-- what is copied of a body of known length
abbrev limit_of : ℤ → Bytes → Bytes
limit_of (pos n) text = take n text
limit_of (negsuc n) text = []

-- `WriteBody` with a body. Where the length is known, the limited copy ends before an error behind
-- the limit, which the discarding copy then meets.
unfoldable pub write_source : TransferWriter → Source → Bytes × Option Error
unfolding finish_body
write_source t s =
    let text = flatten s.pieces in
    let closed =
      λ (out : Bytes) (ncopy : ℕ). or_error s.close_error out (finish_body t out ncopy) in
    if chunked t.transfer_encoding
    then or_error s.read_error (chunks s.pieces) (closed (chunks s.pieces ++ close_chunks) 0)
    else if equal_ℤ t.content_length minus_one
    then or_error s.read_error text (closed text (length text))
    else or_error s.read_error (limit_of t.content_length text)
        (closed (limit_of t.content_length text) (length text))

-- `transferWriter.WriteBody`: the text, and the error
unfoldable pub write_body : TransferWriter → Bytes × Option Error
unfolding write_source
write_body t = elim t.body [ none ↦ finish_body t [] 0 | some s ↦ write_source t s ]
