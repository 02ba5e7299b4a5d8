-- ===== src/Http.antt =====
-- crates/pcsuite-net/src/https.rs: requests and responses of the cloud client.
pub mod Chunked
pub mod Streaming
mod Tests
use pcsuite_rs.Base.{
  ℕ, zero, suc, ◌+◌, ◌-◌, ◌^◌, ◌≡◌, refl, Bool, true, false, not, ◌&&◌, ◌||◌, List, [], ◌∷◌, ◌++◌,
  map, Option, none, some, length, ltb, leb, if◌then◌else◌, ◌==◌, take, drop, min, get_elem?,
}
use pcsuite_rs.Base.Wire.{Bytes, codes, starts_with, position_of}
use pcsuite_rs.Base.Outcome.{usize_mod, u16_mod}
use pcsuite_rs.Base.Text.{
  trim, before_first, lines, split_whitespace, contains, lower, from_str_radix, to_decimal,
  strip_prefix,
}
use pcsuite_rs.Base.Utf8.{from_utf8_lossy}
use pcsuite_rs.Base.Result.{Result, done, bail, ◌>>=◌, context}

abbrev pub crlf : Bytes
crlf = 13 ∷ 10 ∷ []

abbrev pub blank_line : Bytes
blank_line = 13 ∷ 10 ∷ 13 ∷ 10 ∷ []

pub record Response : Type 0 where
  pub status : ℕ
  pub body : Bytes

unfoldable pub ok : Response → Bool
ok r = leb 200 r.status && ltb r.status 300

-- The extra headers of the caller, a line each.
abbrev pub header_lines : List (Bytes × Bytes) → Bytes
header_lines [] = []
header_lines ((k, v) ∷ hs) = k ++ (codes ": " ++ (v ++ (crlf ++ header_lines hs)))

abbrev pub body_lines : Option Bytes → Bytes
body_lines none = []
body_lines (some b) =
    codes "Content-Type: application/json"
    ++ (crlf ++ (codes "Content-Length: " ++ (to_decimal (length b) ++ crlf)))

abbrev pub body_bytes : Option Bytes → Bytes
body_bytes none = []
body_bytes (some b) = b

-- What `connect_and_send` writes: the head, a blank line and the body.
unfoldable pub request_bytes :
    Bytes → Bytes → Bytes → List (Bytes × Bytes) → Option Bytes → Bytes → Bytes
request_bytes host method path headers body accept =
    let request_line = method ++ (codes " " ++ (path ++ (codes " HTTP/1.1" ++ crlf))) in
    let fixed =
      codes "Host: "
      ++ (host
          ++ (crlf
              ++ (codes "Accept: "
                  ++ (accept
                      ++ (crlf
                          ++ (codes "User-Agent: pcsuite"
                              ++ (crlf ++ (codes "Connection: close" ++ crlf)))))))) in
    request_line
    ++ (fixed ++ (header_lines headers ++ (body_lines body ++ (crlf ++ body_bytes body))))

-- `lines.next().and_then(|l| l.split_whitespace().nth(1)).and_then(|s| s.parse::<u16>().ok())`
unfoldable pub status_of : List Bytes → Option ℕ
status_of [] = none
status_of (l ∷ ls) = elim (get_elem? (split_whitespace l) 1) [
  | none ↦ none
  | some s ↦ from_str_radix 10 u16_mod s
]

abbrev pub tail : List Bytes → List Bytes
tail [] = []
tail (l ∷ ls) = ls

-- `l.starts_with("transfer-encoding:") && l.contains("chunked")` on the line in lower case
unfoldable pub says_chunked : Bytes → Bool
says_chunked l = starts_with l (codes "transfer-encoding:") && contains l (codes "chunked")

unfoldable pub any_chunked : List Bytes → Bool
any_chunked [] = false
any_chunked (l ∷ ls) = says_chunked (map lower l) || any_chunked ls

-- The size on a chunk's line, without a chunk extension.
unfoldable pub chunk_size : Bytes → Option ℕ
chunk_size line = from_str_radix 16 usize_mod (trim (before_first b';' (from_utf8_lossy line)))

-- The loop of `dechunk`, with fuel: what is appended to `out`.
unfoldable pub dechunk_loop : ℕ → Bytes → Result Bytes
dechunk_loop zero body = done []
dechunk_loop (suc fuel) body = elim (position_of crlf body) [
  | none ↦ done []
  | some nl ↦ elim (chunk_size (take nl body)) [
    | none ↦ bail "malformed chunk size"
    | some size ↦
        let left = drop (nl + 2) body in
        let more = (do
          out ← dechunk_loop fuel (drop (min (size + 2) (length left)) left)
          done (take size left ++ out)) in
        if size == 0 then done [] else if ltb (length left) size then done left else more
  ]
]

-- Each round takes a line, so a round for each byte is enough.
unfoldable pub dechunk : Bytes → Result Bytes
dechunk body = dechunk_loop (length body) body

unfoldable pub parse_response : Bytes → Result Response
parse_response raw = do
  split ← context (position_of blank_line raw) "no HTTP header terminator in response"
  let head = lines (from_utf8_lossy (take split raw))
  status ← context (status_of head) "no HTTP status line"
  let raw_body = drop (split + 4) raw
  body ← (if any_chunked (tail head) then dechunk raw_body else done raw_body)
  done (record { status = status; body = body })
