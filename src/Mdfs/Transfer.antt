-- ===== src/Mdfs/Transfer.antt =====
-- crates/pcsuite-core/src/mdfs.rs: HTTP on the connection server's socket. A full reply, its parser, and
-- the two chunked adapters.
pub mod Replies
pub mod Decoding
pub mod Upload
pub mod Download
use pcsuite_rs.Base.{
  ℕ, zero, suc, ◌+◌, ◌-◌, ◌*◌, ◌<◌, ◌≤◌, ◌≡◌, refl, Bool, true, false, not, ◌&&◌, ◌||◌, List, [],
  ◌∷◌, ◌++◌, map, Option, none, some, length, ltb, leb, if◌then◌else◌, ◌==◌, take, drop, min,
  is_empty, get_elem?,
}
use pcsuite_rs.Base.Wire.{Bytes, codes, starts_with, position_of}
use pcsuite_rs.Base.Outcome.{usize_mod, u16_mod}
use pcsuite_rs.Base.Text.{
  lower, lines, trim, before_first, strip_prefix, from_str_radix, contains, split_whitespace,
  to_hex,
}
use pcsuite_rs.Base.Utf8.{from_utf8_lossy, is_utf8}
use pcsuite_rs.Base.Maybe.{or_else}

abbrev pub crlf : Bytes
crlf = 13 ∷ 10 ∷ []

abbrev pub blank_line : Bytes
blank_line = 13 ∷ 10 ∷ 13 ∷ 10 ∷ []

-- `hay.windows(needle.len()).position(|w| w == needle)`
unfoldable pub find : Bytes → Bytes → Option ℕ
find hay needle = position_of needle hay

abbrev pub is_some {ℓ} : {A : Type ℓ} → Option A → Bool
is_some none = false
is_some (some a) = true

abbrev pub content_length_of : Bytes → Option Bytes
content_length_of l = strip_prefix (codes "content-length:") l

-- `head.lines().find_map(|l| l.strip_prefix("content-length:"))`
unfoldable pub first_length : List Bytes → Option Bytes
first_length [] = none
first_length (l ∷ ls) =
    let rest = first_length ls in elim (content_length_of l) [ none ↦ rest | some v ↦ some v ]

-- `find_map(|l| l.strip_prefix("content-length:").and_then(|v| v.trim().parse::<usize>().ok()))`
unfoldable pub first_valid_length : List Bytes → Option ℕ
first_valid_length [] = none
first_valid_length (l ∷ ls) =
    let rest = first_valid_length ls in
    elim (content_length_of l) [
      | none ↦ rest
      | some v ↦ elim (from_str_radix 10 usize_mod (trim v)) [ none ↦ rest | some n ↦ some n ]
    ]

unfoldable pub any_chunked : List Bytes → Bool
any_chunked [] = false
any_chunked (l ∷ ls) =
    (starts_with l (codes "transfer-encoding:") && contains l (codes "chunked")) || any_chunked ls

abbrev pub final_chunk : Bytes
final_chunk = b'0' ∷ blank_line

-- `lowercase` is the standard library's `to_lowercase`.
unfoldable pub http_response_complete : (Bytes → Bytes) → Bytes → Bool
http_response_complete lowercase buf = if is_empty buf then false else elim (find buf blank_line) [
  | none ↦ not (starts_with buf (codes "HTTP/"))
  | some sep ↦
      let head = lines (lowercase (from_utf8_lossy (take sep buf))) in
      let body = drop (sep + 4) buf in
      if any_chunked head
      then is_some (find body (crlf ++ final_chunk)) || starts_with body final_chunk
      else elim (first_valid_length head) [ none ↦ true | some cl ↦ leb cl (length body) ]
]

unfoldable pub http_reply_complete : Bytes → Bool
http_reply_complete buf = elim (find buf blank_line) [
  | none ↦ false
  | some sep ↦
      let head = lines (map lower (from_utf8_lossy (take sep buf))) in
      let body_len = length buf - (sep + 4) in
      let unmeasured =
        if any_chunked head then is_some (find (drop (sep + 4) buf) final_chunk) else false in
      elim (first_length head) [
        | none ↦ unmeasured
        | some v ↦ elim (from_str_radix 10 usize_mod (trim v)) [
          | none ↦ unmeasured
          | some len ↦ leb len body_len
        ]
      ]
]

abbrev pub text_or_empty : Bytes → Bytes
text_or_empty bs = if is_utf8 bs then bs else []

-- The size on a chunk's line; a malformed one is read as 0.
unfoldable pub lenient_size : Bytes → ℕ
lenient_size line =
    or_else (from_str_radix 16 usize_mod (trim (before_first b';' (text_or_empty line)))) 0

abbrev pub skip_line_end : Bytes → Bytes
skip_line_end bs = if starts_with bs crlf then drop 2 bs else bs

-- The loop of `dechunk`, with fuel: what is appended to `out`.
unfoldable pub dechunk_loop : ℕ → Bytes → Bytes
dechunk_loop zero b = []
dechunk_loop (suc fuel) b = elim (find b crlf) [
  | none ↦ []
  | some eol ↦
      let size = lenient_size (take eol b) in
      let b' = drop (eol + 2) b in
      let n = min size (length b') in
      let rest = dechunk_loop fuel (skip_line_end (drop n b')) in
      if size == 0 then [] else take n b' ++ rest
]

-- Each round takes a line, so a round for each byte is enough.
unfoldable pub dechunk : Bytes → Bytes
dechunk b = dechunk_loop (length b) b

unfoldable pub status_of : List Bytes → ℕ
status_of [] = 0
status_of (l ∷ ls) =
    if starts_with l (codes "HTTP/")
    then elim (get_elem? (split_whitespace l) 1) [
      | none ↦ 0
      | some code ↦ or_else (from_str_radix 10 u16_mod code) 0
    ]
    else 0

unfoldable pub parse_http : Bytes → ℕ × Bytes
parse_http buf = elim (find buf blank_line) [
  | none ↦ (0, buf)
  | some sep ↦
      let head = lines (text_or_empty (take sep buf)) in
      let raw_body = drop (sep + 4) buf in
      (status_of head, (if any_chunked (map (map lower) head) then dechunk raw_body else raw_body))
]

-- `ChunkedWriter`: `inner` is what has been written to the socket.
pub record ChunkedWriter : Type 0 where
  pub inner : Bytes
  pub buf : Bytes

abbrev pub chunk_target : ℕ
chunk_target = 64 * 1024

unfoldable pub flush_buf : ChunkedWriter → ChunkedWriter
flush_buf w =
    let flushed : ChunkedWriter = record {
      inner = w.inner ++ (to_hex (length w.buf) ++ (crlf ++ (w.buf ++ crlf)));
      buf = [];
    } in
    if is_empty w.buf then w else flushed

unfoldable pub write : ChunkedWriter → Bytes → ChunkedWriter
write w bytes =
    let w' : ChunkedWriter = record { inner = w.inner; buf = w.buf ++ bytes } in
    if leb chunk_target (length w'.buf) then flush_buf w' else w'

unfoldable pub flush : ChunkedWriter → ChunkedWriter
flush w = flush_buf w

unfoldable pub finish : ChunkedWriter → Bytes
finish w = (flush_buf w).inner ++ (b'0' ∷ blank_line)
