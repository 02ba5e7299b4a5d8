-- ===== src/Mdfs/Transfer/Download.antt =====
-- crates/pcsuite-core/src/mdfs.rs: `ChunkedReader` and `ProgressReader`. The inner reader is the bytes it
-- still has; how many of them one of its reads returns, at least one while there are any, is an argument.
use pcsuite_rs.Base.{
  ℕ, ◌+◌, ◌-◌, Bool, true, false, ◌||◌, List, [], ◌∷◌, none, some, length, if◌then◌else◌, ◌==◌,
  take, drop, min, is_empty,
}
use pcsuite_rs.Base.Wire.{Bytes}
use pcsuite_rs.Base.Outcome.{usize_mod}
use pcsuite_rs.Base.Text.{trim, before_first, from_str_radix}
use pcsuite_rs.Base.Utf8.{is_utf8}
use pcsuite_rs.Base.Result.{Result, done, bail, ◌>>=◌}

pub record ChunkedReader : Type 0 where
  pub inner : Bytes
  pub left : ℕ
  pub trailing_crlf : Bool
  pub ended : Bool

abbrev pub start : Bytes → ChunkedReader
start inner = record { inner = inner; left = 0; trailing_crlf = false; ended = false }

-- The bytes up to the first line feed, with it, and what is left.
unfoldable pub cut_line : Bytes → Bytes × Bytes
cut_line [] = ([], [])
cut_line (b ∷ bs) =
    let (line, rest) = cut_line bs in if b == 10 then (b ∷ [], bs) else (b ∷ line, rest)

unfoldable pub read_line : Bytes → Result (Bytes × Bytes)
read_line inner =
    if is_utf8 ((cut_line inner).0)
    then done (cut_line inner)
    else bail "stream did not contain valid UTF-8"

-- `if self.trailing_crlf { … }`
unfoldable pub skip_trailing : Bool → Bytes → Result Bytes
skip_trailing true inner = do (line, rest) ← read_line inner; done rest
skip_trailing false inner = done inner

-- The reading of a size line, while no chunk is begun.
unfoldable pub begin_chunk : ChunkedReader → Result ChunkedReader
begin_chunk r = do
  inner ← skip_trailing r.trailing_crlf r.inner
  (line, rest) ← read_line inner
  if is_empty line
      then bail "chunked body cut short"
      else elim (from_str_radix 16 usize_mod (trim (before_first b';' line))) [
        | none ↦ bail "bad chunk size"
        | some size ↦
            done (record { inner = rest; left = size; trailing_crlf = false; ended = size == 0 })
      ]

-- The copying out of a chunk that has bytes left, for a buffer of `len` bytes.
unfoldable pub read_chunk : ChunkedReader → ℕ → ℕ → Result (Bytes × ChunkedReader)
read_chunk r len ready =
    let want = min len r.left in
    let n = min (min ready want) (length r.inner) in
    let after : ChunkedReader = record {
      inner = drop n r.inner;
      left = r.left - n;
      trailing_crlf = if r.left - n == 0 then true else r.trailing_crlf;
      ended = r.ended;
    } in
    if n == 0 then bail "chunked body cut short" else done (take n r.inner, after)

unfoldable pub read : ChunkedReader → ℕ → ℕ → Result (Bytes × ChunkedReader)
read r len ready =
    if r.ended || len == 0
    then done ([], r)
    else if r.left == 0
    then (do r' ← begin_chunk r; if r'.ended then done ([], r') else read_chunk r' len ready)
    else read_chunk r len ready

-- `ProgressReader::read` over what its inner reader gave: the bytes, the new count, and what the
-- progress callback was told.
unfoldable pub progress_read : Bool → ℕ → Result Bytes → Result (Bytes × ℕ × List ℕ)
progress_read cancel total inner = if cancel then bail "download cancelled" else (do
  bytes ← inner
  let total' = total + length bytes
  done (if is_empty bytes then (bytes, total, []) else (bytes, total', total' ∷ [])))
