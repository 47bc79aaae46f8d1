-- ===== src/MaxBytes.antt =====
-- The maxBytesReader of http/request.go, on a body of http/transfer.go.
pub mod Bounded
mod Tests
use go_http.Prelude.{
  ℕ, zero, suc, ◌-◌, Bool, true, false, List, [], ◌∷◌, ◌++◌, Option, none, some, Bytes, codes,
  length, min, if◌then◌else◌,
}
use go_http.Int.{ℤ, pos, negsuc}
use go_http.Errors.{Error, text_error}
use go_http.Transfer.Body
use go_http.Transfer.Body.{Body}

-- `maxBytesReader`; `too_large` says that `requestTooLarge` has been called, where the writer is a
-- `*response` (`server`)
pub record MaxBytesReader : Type 0 where
  pub server : Bool
  pub r : Body
  pub n : ℤ
  pub stopped : Bool
  pub too_large : ℕ

-- `MaxBytesReader`
abbrev pub max_bytes_reader : Bool → Body → ℤ → MaxBytesReader
max_bytes_reader server r n = record {
  server = server;
  r = r;
  n = n;
  stopped = false;
  too_large = 0;
}

abbrev pub body_too_large : Error
body_too_large = text_error (codes "http: request body too large")

-- the read at the limit
unfoldable pub refuse : MaxBytesReader → MaxBytesReader
refuse l =
    let told = if l.server then suc l.too_large else l.too_large in
    if l.stopped then l else record l { stopped = true; too_large = told }

-- `maxBytesReader.Read`
unfoldable pub read : MaxBytesReader → ℕ → ℕ → MaxBytesReader × Bytes × Option Error
unfolding refuse
read l size give = elim l.n [
  | negsuc k ↦ (refuse l, [], some body_too_large)
  | pos n ↦ elim n [
    | zero ↦ (refuse l, [], some body_too_large)
    | suc k ↦
        let (r', got, e) = Body.read l.r (min size (suc k)) give in
        (record l { r = r'; n = pos (suc k - length got) }, got, e)
  ]
]

-- `maxBytesReader.Close`
unfoldable pub close : ℕ → (ℕ → ℕ) → MaxBytesReader → MaxBytesReader × Option Error
close fuel sizes l = let (r', e) = Body.close fuel sizes l.r in (record l { r = r' }, e)

-- Reads with these sizes, one after the other: the bytes of all of them.
unfoldable pub read_each : List (ℕ × ℕ) → MaxBytesReader → MaxBytesReader × Bytes
unfolding read
read_each [] l = (l, [])
read_each ((size, give) ∷ more) l =
    let (l', got, e) = read l size give in
    let (last, rest) = read_each more l' in (last, got ++ rest)
