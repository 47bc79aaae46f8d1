-- ===== src/Lex.antt =====
-- http/lex.go: the lexical classes of HTTP, quoted strings, and the split of a field value.
-- A byte is a number below 256, and a slice is a list of bytes.
pub mod Quoted
pub mod Split
pub mod Tokens
mod Tests
use go_http.Prelude.{
  ℕ, zero, suc, ◌+◌, Bool, not, ◌&&◌, ◌||◌, List, [], ◌∷◌, ◌++◌, Option, none, some, Bytes, codes,
  one_of, within, ◌==◌, if◌then◌else◌, length, drop, is_empty,
}

-- `isSeparator`
unfoldable pub is_separator : ℕ → Bool
unfolding one_of
is_separator c = one_of c (codes "()<>@,;:\\\"/[]?={} \t")

-- `isSpace`
unfoldable pub is_space : ℕ → Bool
unfolding one_of
is_space c = one_of c (codes " \t\r\n")

-- `isCtl`
unfoldable pub is_ctl : ℕ → Bool
is_ctl c = within 0 31 c || c == 127

-- `isChar`
unfoldable pub is_char : ℕ → Bool
is_char c = within 0 127 c

-- `isAnyText`
unfoldable pub is_any_text : ℕ → Bool
unfolding is_ctl
is_any_text c = not (is_ctl c)

-- `isQdText`
unfoldable pub is_qd_text : ℕ → Bool
unfolding is_any_text
is_qd_text c = is_any_text c && not (c == b'"')

-- `isToken`
unfoldable pub is_token : ℕ → Bool
unfolding is_char is_ctl
is_token c = is_char c && not (is_ctl c) && not (is_separator c)

-- `httpUnquotePair`: the escapes \a \b \f \n \r \t \v \\ \' and \", and `?` for any other
unfoldable pub http_unquote_pair : ℕ → ℕ
http_unquote_pair b =
    if b == b'a'
    then 7
    else if b == b'b'
    then 8
    else if b == b'f'
    then 12
    else if b == b'n'
    then 10
    else if b == b'r'
    then 13
    else if b == b't'
    then 9
    else if b == b'v'
    then 11
    else if b == b'\\'
    then b'\\'
    else if b == 39
    then 39
    else if b == b'"'
    then b'"'
    else b'?'

-- The results of `httpUnquote`: an index out of range on an empty slice, `-1`, or the number of
-- bytes eaten with the text.
pub data Unquoted : Type 0 where
  out_of_range : Unquoted
  failed : Unquoted
  unquoted : ℕ → Bytes → Unquoted

-- the default case of the loop's switch
unfoldable pub clean_byte : ℕ → ℕ
unfolding is_qd_text
clean_byte b = if is_qd_text b then b else b'?'

-- the loop of `httpUnquote` at position `i`, with `buf[0:j]` written so far and `raw[i:]` to read
unfoldable pub unquote_from : ℕ → Bytes → Bytes → Unquoted
unfolding clean_byte http_unquote_pair
unquote_from i buf [] = failed
unquote_from i buf (b ∷ []) = if b == b'"' then unquoted (i + 1) buf else failed
unquote_from i buf (b ∷ d ∷ rest) =
    let escaped = unquote_from (i + 2) (buf ++ (http_unquote_pair d ∷ [])) rest in
    let plain = unquote_from (i + 1) (buf ++ (clean_byte b ∷ [])) (d ∷ rest) in
    if b == b'"' then unquoted (i + 1) buf else if b == b'\\' then escaped else plain

-- `httpUnquote`
unfoldable pub http_unquote : Bytes → Unquoted
unfolding unquote_from
http_unquote [] = out_of_range
http_unquote (b ∷ rest) = if not (b == b'"') then failed else unquote_from 1 [] rest

-- `if chunk != "" { result = append(result, chunk) }`
unfoldable pub flush : Bytes → List Bytes → List Bytes
flush chunk result = if is_empty chunk then result else result ++ (chunk ∷ [])

-- The loop of `httpSplitFieldValue` at position `i`, where `raw[i:]` is left, on fuel. `none` is
-- out of fuel, or the panic of `httpUnquote`, neither of which happens.
unfoldable pub split_from : ℕ → ℕ → Bytes → Bytes → List Bytes → Option (ℕ × List Bytes)
unfolding flush
split_from zero i raw chunk result = none
split_from (suc f) i [] chunk result = some (i, flush chunk result)
split_from (suc f) i (b ∷ rest) chunk result =
    let quoted : Option (ℕ × List Bytes) = elim (http_unquote (b ∷ rest)) [
      | out_of_range ↦ none
      | failed ↦ some (i, result)
      | unquoted eaten unq ↦ split_from f (i + eaten) (drop eaten (b ∷ rest)) (chunk ++ unq) result
    ] in
    let separated = split_from f (i + 1) rest [] (flush chunk result) in
    let token = split_from f (i + 1) rest (chunk ++ (b ∷ [])) result in
    let skipped = split_from f (i + 1) rest chunk result in
    let odd = split_from f (i + 1) rest (chunk ++ (b'?' ∷ [])) result in
    if b == b'"'
    then quoted
    else if is_separator b
    then separated
    else if is_token b
    then token
    else if b == b'\n' || b == b'\r'
    then skipped
    else odd

-- `httpSplitFieldValue`: a round of the loop eats one byte at least
unfoldable pub http_split_field_value : Bytes → Option (ℕ × List Bytes)
unfolding split_from
http_split_field_value fv = split_from (suc (length fv)) 0 fv [] []
