-- ===== src/Http/Streaming.antt =====
-- crates/pcsuite-net/src/https.rs: the download that goes to a sink. The sink takes every write; what it
-- got is returned beside the function's own result.
pub mod Identity
pub mod Settle
pub mod Rounds
pub mod Cut
use pcsuite_rs.Base.{
  ℕ, zero, suc, ◌+◌, ◌-◌, ◌*◌, ◌≡◌, refl, Bool, true, false, not, ◌&&◌, ◌||◌, List, [], ◌∷◌, ◌++◌,
  map, Option, none, some, length, ltb, leb, if◌then◌else◌, ◌==◌, take, drop, min, is_empty,
}
use pcsuite_rs.Base.Wire.{Bytes, codes, position_of}
use pcsuite_rs.Base.Outcome.{usize_mod}
use pcsuite_rs.Base.Text.{trim, lines, lower, from_str_radix, strip_prefix}
use pcsuite_rs.Base.Utf8.{from_utf8_lossy}
use pcsuite_rs.Base.Result.{Result, done, bail, ◌>>=◌, context}
use pcsuite_rs.Base.Streams.{Read, got, failed}
use pcsuite_rs.Http.{crlf, blank_line, status_of, says_chunked, tail, chunk_size}

-- What the sink got, and the function's result.
abbrev pub Streamed : Type 0
Streamed = Bytes × Result ℕ

abbrev pub wanted : Option ℕ → ℕ → ℕ → ℕ
wanted none written n = n
wanted (some total) written n = min n (total - written)

abbrev pub is_total : Option ℕ → ℕ → Bool
is_total none written = false
is_total (some total) written = total == written

-- At EOF: a body shorter than announced is an error.
abbrev pub at_eof : Option ℕ → Bytes → Streamed
at_eof none out = (out, done (length out))
at_eof (some total) out =
    if ltb (length out) total then (out, bail "download truncated") else (out, done (length out))

-- The loop of `stream_identity`; `out` is what the sink has, whose length is `written`.
unfoldable pub stream_identity : Option ℕ → Bytes → Bytes → List Read → Streamed
stream_identity content_length out pending [] =
    let out' = out ++ take (wanted content_length (length out) (length pending)) pending in
    if is_total content_length (length out')
    then (out', done (length out'))
    else (out', bail "download stalled")
stream_identity content_length out pending (failed ∷ src) =
    let out' = out ++ take (wanted content_length (length out) (length pending)) pending in
    if is_total content_length (length out')
    then (out', done (length out'))
    else (out', bail "read from the download stream")
stream_identity content_length out pending (got chunk ∷ src) =
    let out' = out ++ take (wanted content_length (length out) (length pending)) pending in
    let rest = stream_identity content_length out' chunk src in
    if is_total content_length (length out')
    then (out', done (length out'))
    else if is_empty chunk
    then at_eof content_length out'
    else rest

-- The variables of the loop of `stream_chunked`, with what the sink has.
pub record Copy : Type 0 where
  pub out : Bytes
  pub buf : Bytes
  pub remaining : ℕ
  pub expect_crlf : Bool

-- One round of the loop: it goes on with or without progress, or the function returns.
pub data Round : Type 0 where
  progressed idle finished malformed : Copy → Round

-- `if remaining > 0 && !buf.is_empty()`
unfoldable pub copy_data : Copy → Copy × Bool
copy_data c =
    let n = min c.remaining (length c.buf) in
    let left = c.remaining - n in
    let copied : Copy = record {
      out = c.out ++ take n c.buf;
      buf = drop n c.buf;
      remaining = left;
      expect_crlf = if left == 0 then true else c.expect_crlf;
    } in
    if ltb 0 c.remaining && not (is_empty c.buf) then (copied, true) else (c, false)

-- `if remaining == 0 && expect_crlf && buf.len() >= 2`
unfoldable pub skip_crlf : Copy → Copy × Bool
skip_crlf c =
    let skipped : Copy = record {
      out = c.out;
      buf = drop 2 c.buf;
      remaining = c.remaining;
      expect_crlf = false;
    } in
    if c.remaining == 0 && c.expect_crlf && leb 2 (length c.buf)
    then (skipped, true)
    else (c, false)

abbrev pub line_read : Copy → ℕ → ℕ → Round
line_read c nl size =
    let buf' = drop (nl + 2) c.buf in
    let begun : Copy = record {
      out = c.out;
      buf = buf';
      remaining = size;
      expect_crlf = c.expect_crlf;
    } in
    let ended : Copy = record {
      out = c.out;
      buf = buf';
      remaining = c.remaining;
      expect_crlf = c.expect_crlf;
    } in
    if size == 0 then finished ended else progressed begun

abbrev pub quiet : Copy → Bool → Round
quiet c true = progressed c
quiet c false = idle c

-- `if remaining == 0 && !expect_crlf`
unfoldable pub take_line : Copy → Bool → Round
take_line c before =
    if c.remaining == 0 && not c.expect_crlf
    then elim (position_of crlf c.buf) [
      | none ↦ quiet c before
      | some nl ↦ elim (chunk_size (take nl c.buf)) [
        | none ↦ malformed c
        | some size ↦ line_read c nl size
      ]
    ]
    else quiet c before

unfoldable pub round : Copy → Round
round c =
    let (c1, copied) = copy_data c in
    let (c2, skipped) = skip_crlf c1 in take_line c2 (copied || skipped)

-- Rounds until one makes no progress, with fuel.
unfoldable pub settle : ℕ → Copy → Round
settle zero c = idle c
settle (suc fuel) c = elim (round c) [
  | progressed c' ↦ settle fuel c'
  | idle c' ↦ idle c'
  | finished c' ↦ finished c'
  | malformed c' ↦ malformed c'
]

abbrev pub with_more : Copy → Bytes → Copy
with_more c chunk = record {
  out = c.out;
  buf = c.buf ++ chunk;
  remaining = c.remaining;
  expect_crlf = c.expect_crlf;
}

-- Each round with progress takes bytes from the buffer, so a round for each byte and a last one are
-- enough.
unfoldable pub stream_chunked : List Read → Copy → Streamed
stream_chunked [] c = elim (settle (suc (length c.buf)) c) [
  | progressed c' ↦ (c'.out, bail "download stalled")
  | idle c' ↦ (c'.out, bail "download stalled")
  | finished c' ↦ (c'.out, done (length c'.out))
  | malformed c' ↦ (c'.out, bail "malformed chunk size")
]
stream_chunked (failed ∷ src) c = elim (settle (suc (length c.buf)) c) [
  | progressed c' ↦ (c'.out, bail "read from the download stream")
  | idle c' ↦ (c'.out, bail "read from the download stream")
  | finished c' ↦ (c'.out, done (length c'.out))
  | malformed c' ↦ (c'.out, bail "malformed chunk size")
]
stream_chunked (got chunk ∷ src) c = elim (settle (suc (length c.buf)) c) [
  | progressed c' ↦ stream_chunked src (with_more c' chunk)
  | idle c' ↦
      let rest = stream_chunked src (with_more c' chunk) in
      if is_empty chunk then (c'.out, bail "connection closed mid-chunk") else rest
  | finished c' ↦ (c'.out, done (length c'.out))
  | malformed c' ↦ (c'.out, bail "malformed chunk size")
]

-- The header loop of `request_streaming`: the split, the buffer and the reads that are left.
unfoldable pub header_loop : Bytes → List Read → Result (ℕ × Bytes × List Read)
header_loop buf [] = elim (position_of blank_line buf) [
  | some p ↦ done (p, buf, [])
  | none ↦ bail "download stalled"
]
header_loop buf (failed ∷ src) = elim (position_of blank_line buf) [
  | some p ↦ done (p, buf, failed ∷ src)
  | none ↦ bail "read from the download stream"
]
header_loop buf (got chunk ∷ src) = elim (position_of blank_line buf) [
  | some p ↦ done (p, buf, got chunk ∷ src)
  | none ↦
      let rest = header_loop (buf ++ chunk) src in
      if is_empty chunk
      then bail "connection closed before the response headers were complete"
      else if ltb 65536 (length (buf ++ chunk))
      then bail "response headers exceed 64 KiB"
      else rest
]

-- The header lines read one after the other: whether the body is chunked, and its announced length.
unfoldable pub header_fields : Bool → Option ℕ → List Bytes → Bool × Option ℕ
header_fields chunked content_length [] = (chunked, content_length)
header_fields chunked content_length (l ∷ ls) =
    let line = map lower l in
    let as_chunked = header_fields true content_length ls in
    let unchanged = header_fields chunked content_length ls in
    if says_chunked line then as_chunked else elim (strip_prefix (codes "content-length:") line) [
      | none ↦ unchanged
      | some v ↦ header_fields chunked (from_str_radix 10 usize_mod (trim v)) ls
    ]

-- The start of an error's body: reads until 4096 bytes are there or EOF.
unfoldable pub error_loop : Bytes → List Read → Result Bytes
error_loop rest [] =
    if ltb (length rest) 4096 then bail "download stalled" else done (take 4096 rest)
error_loop rest (failed ∷ src) =
    if ltb (length rest) 4096 then bail "read from the download stream" else done (take 4096 rest)
error_loop rest (got chunk ∷ src) =
    let more = error_loop (rest ++ chunk) src in
    if ltb (length rest) 4096
    then if is_empty chunk then done (take 4096 rest) else more
    else done (take 4096 rest)

pub record StreamOutcome : Type 0 where
  pub status : ℕ
  pub written : ℕ
  pub error_body : Bytes

-- A streaming request from the first read on: what the sink got, and the outcome.
abbrev pub outcome_of : ℕ → Streamed → Bytes × Result StreamOutcome
outcome_of status (out, r) =
    (out, (do n ← r; done (record { status = status; written = n; error_body = [] })))

abbrev pub refused : ℕ → Result Bytes → Bytes × Result StreamOutcome
refused status r = ([], (do b ← r; done (record { status = status; written = 0; error_body = b })))

abbrev pub body_loop : Bool → Option ℕ → Bytes → List Read → Streamed
body_loop true content_length rest src =
    stream_chunked src (record { out = []; buf = rest; remaining = 0; expect_crlf = false })
body_loop false content_length rest src = stream_identity content_length [] rest src

abbrev pub stream_body : List Bytes → Bytes → List Read → Bytes × Result StreamOutcome
stream_body head rest src = elim (status_of head) [
  | none ↦ ([], bail "no HTTP status line")
  | some status ↦
      let (chunked, content_length) = header_fields false none (tail head) in
      let body = outcome_of status (body_loop chunked content_length rest src) in
      if leb 200 status && ltb status 300 then body else refused status (error_loop rest src)
]

unfoldable pub request_streaming : List Read → Bytes × Result StreamOutcome
request_streaming src = elim (header_loop [] src) [
  | bail e ↦ ([], bail e)
  | done (split, buf, src') ↦
      stream_body (lines (from_utf8_lossy (take split buf))) (drop (split + 4) buf) src'
]
