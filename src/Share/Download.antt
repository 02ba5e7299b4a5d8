-- ===== src/Share/Download.antt =====
-- crates/pcsuite-core/src/share.rs: `http_download` over `BufSock`, a socket with a buffer. What a
-- function leaves of the buffer and of the reads is returned beside its result; the file is the bytes
-- written to it.
pub mod Cut
use Prim.Native.String.{String}
use pcsuite_rs.Base.{
  ℕ, zero, suc, ◌+◌, ◌-◌, ◌*◌, ◌^◌, Bool, true, false, not, List, [], ◌∷◌, ◌++◌, Option, none, some,
  length, take, drop, ltb, leb, ◌==◌, if◌then◌else◌, is_empty, get_elem?,
}
use pcsuite_rs.Base.Wire.{Bytes, codes, position_of, starts_with}
use pcsuite_rs.Base.Maybe.{or_else}
use pcsuite_rs.Base.Outcome.{usize_mod}
use pcsuite_rs.Base.Result.{Result, done, bail, ◌>>=◌, context}
use pcsuite_rs.Base.Streams.{Read, got, failed}
use pcsuite_rs.Base.Text.{lines, split_whitespace, from_str_radix, trim, before_first}
use pcsuite_rs.Base.Utf8.{is_utf8}
use pcsuite_rs.Http.{any_chunked}

abbrev pub crlf : Bytes
crlf = 13 ∷ 10 ∷ []

-- What was taken, what remains in the buffer, and the reads to come.
abbrev pub Taken : Type 0
Taken = Bytes × Bytes × List Read

-- The text in front of a mark, and what is behind the mark.
abbrev pub cut_at : Bytes → ℕ → Bytes → Option (Bytes × Bytes)
cut_at mark keep buf = elim (position_of mark buf) [
  | none ↦ none
  | some pos ↦ some (take (pos + keep) buf, drop (pos + length mark) buf)
]

-- `read_line`: the line without its end.
unfoldable pub read_line : Bytes → List Read → Result Taken
read_line buf [] = elim (cut_at crlf 0 buf) [
  | some (line, rest) ↦ done (line, rest, [])
  | none ↦ bail "download read timeout"
]
read_line buf (failed ∷ reads) = elim (cut_at crlf 0 buf) [
  | some (line, rest) ↦ done (line, rest, failed ∷ reads)
  | none ↦ bail "download read"
]
read_line buf (got c ∷ reads) =
    let more = read_line (buf ++ c) reads in
    elim (cut_at crlf 0 buf) [
      | some (line, rest) ↦ done (line, rest, got c ∷ reads)
      | none ↦ if is_empty c then bail "EOF inside chunked stream (line)" else more
    ]

-- `consume`
unfoldable pub consume : ℕ → Bytes → List Read → Result (Bytes × List Read)
consume n buf [] =
    if leb n (length buf) then done (drop n buf, []) else bail "download read timeout"
consume n buf (failed ∷ reads) =
    if leb n (length buf) then done (drop n buf, failed ∷ reads) else bail "download read"
consume n buf (got c ∷ reads) =
    let more = consume n (buf ++ c) reads in
    if leb n (length buf)
    then done (drop n buf, got c ∷ reads)
    else if is_empty c
    then bail "EOF inside chunked stream (consume)"
    else more

abbrev pub behind : Bytes → Result Taken → Result Taken
behind front r = do (out, buf, reads) ← r; done (front ++ out, buf, reads)

-- `copy_exact`: the buffer is written as far as it is wanted, and filled again once it is empty.
unfoldable pub copy_exact : ℕ → Bytes → List Read → Result Taken
copy_exact left buf [] =
    if leb left (length buf)
    then done (take left buf, drop left buf, [])
    else bail "download read timeout"
copy_exact left buf (failed ∷ reads) =
    if leb left (length buf)
    then done (take left buf, drop left buf, failed ∷ reads)
    else bail "download read"
copy_exact left buf (got c ∷ reads) =
    let more = copy_exact (left - length buf) c reads in
    if leb left (length buf)
    then done (take left buf, drop left buf, got c ∷ reads)
    else if is_empty c
    then bail "EOF inside chunked stream (data)"
    else behind buf more

-- The size on a chunk's line; a line that is no text has none.
unfoldable pub line_size : Bytes → Option ℕ
line_size line =
    if is_utf8 line then from_str_radix 16 usize_mod (trim (before_first b';' line)) else none

-- The chunks, with fuel: what is written to the file.
unfoldable pub chunk_loop : ℕ → Bytes → List Read → Result Bytes
chunk_loop zero buf reads = bail "EOF inside chunked stream (line)"
chunk_loop (suc fuel) buf reads = do
  (line, buf₁, reads₁) ← read_line buf reads
  size ← context (line_size line) "bad chunk size"
  elim size [
    | zero ↦ done []
    | suc n ↦ (do
      (data_, buf₂, reads₂) ← copy_exact (suc n) buf₁ reads₁
      (buf₃, reads₃) ← consume 2 buf₂ reads₂
      more ← chunk_loop fuel buf₃ reads₃
      done (data_ ++ more))
  ]

abbrev pub bytes_of : List Read → ℕ
bytes_of [] = 0
bytes_of (failed ∷ reads) = bytes_of reads
bytes_of (got c ∷ reads) = length c + bytes_of reads

-- Each round takes a line, so a round for each byte and one more are enough.
unfoldable pub download_chunks : Bytes → List Read → Result Bytes
download_chunks buf reads = chunk_loop (suc (length buf + bytes_of reads)) buf reads

-- Without chunks, the body is what comes until EOF.
unfoldable pub download_rest : List Read → Result Bytes
download_rest [] = bail "download read timeout"
download_rest (failed ∷ reads) = bail "download read"
download_rest (got c ∷ reads) =
    let more = (do rest ← download_rest reads; done (c ++ rest)) in
    if is_empty c then done [] else more

-- A buffer that is too large is refused before it is filled again.
abbrev head_error : String → Bytes → String
head_error e buf = if ltb (64 * 1024) (length buf) then "HTTP header block too large" else e

-- The header block with its blank line.
unfoldable pub read_head : Bytes → List Read → Result Taken
read_head buf [] = elim (cut_at (crlf ++ crlf) 4 buf) [
  | some (head, rest) ↦ done (head, rest, [])
  | none ↦ bail (head_error "download read timeout" buf)
]
read_head buf (failed ∷ reads) = elim (cut_at (crlf ++ crlf) 4 buf) [
  | some (head, rest) ↦ done (head, rest, failed ∷ reads)
  | none ↦ bail (head_error "download read" buf)
]
read_head buf (got c ∷ reads) =
    let more = read_head (buf ++ c) reads in
    elim (cut_at (crlf ++ crlf) 4 buf) [
      | some (head, rest) ↦ done (head, rest, got c ∷ reads)
      | none ↦
          if ltb (64 * 1024) (length buf)
          then bail "HTTP header block too large"
          else if is_empty c
          then bail "peer closed before HTTP headers"
          else more
    ]

-- The status of a first line, or 0.
abbrev pub status_or_zero : List Bytes → ℕ
status_or_zero [] = 0
status_or_zero (l ∷ ls) =
    if starts_with l (codes "HTTP/")
    then or_else
        (elim (get_elem? (split_whitespace l) 1) [
          | none ↦ none
          | some w ↦ from_str_radix 10 (2 ^ 16) w
        ])
        0
    else 0

-- The status, and whether the body is chunked.
unfoldable pub split_head_full : Bytes → ℕ × Bool
split_head_full head =
    let text = if is_utf8 head then head else [] in
    (status_or_zero (lines text), any_chunked (lines text))

abbrev body_of : Bool → Bytes → List Read → Result Bytes
body_of true buf reads = download_chunks buf reads
body_of false buf reads = do rest ← download_rest reads; done (buf ++ rest)

-- The file's content.
unfoldable pub http_download : Bool → List Read → Result Bytes
http_download can_create reads = do
  (head, buf, later) ← read_head [] reads
  let (status, chunked) = split_head_full head
  if not (status == 200)
      then bail "HTTP status"
      else if not can_create
      then bail "create"
      else body_of chunked buf later
