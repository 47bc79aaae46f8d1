-- ===== src/Errors.antt =====
-- The errors of package http, as the values that its functions return.
use go_http.Prelude.{Bytes}
use go_http.Int.{ℤ}

pub data Error : Type 0 where
  -- `os.EOF` and `io.ErrUnexpectedEOF`
  eof : Error
  unexpected_eof : Error
  -- `io.ErrShortWrite`
  short_write : Error
  -- `os.EBADF`
  bad_file : Error
  -- the `ProtocolError`s
  line_too_long : Error
  not_supported : Error
  unexpected_trailer : Error
  missing_content_length : Error
  persist_eof : Error
  pipeline : Error
  -- `badStringError`, by what it is about and the string
  bad_string : Bytes → Bytes → Error
  -- `os.NewError(text)`
  text_error : Bytes → Error
  -- `http: Request.ContentLength=%d with nil Body`
  nil_body : ℤ → Error
  -- `http: Request.ContentLength=%d with Body length %d`
  body_length : ℤ → ℤ → Error
  -- an error of package "strconv"
  syntax : Error
