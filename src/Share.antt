-- ===== src/Share.antt =====
-- crates/pcsuite-core/src/share.rs: the receiver of files that the phone sends to port 10191. The texts
-- that it reads are here; Share/Connect is one connection, Share/Taps the accept loop, Share/Pull the
-- exchange over the WebSocket.
pub mod Connect
pub mod Taps
pub mod Pull
pub mod Download
pub mod Files
mod Tests
use pcsuite_rs.Base.{
  ℕ, ◌^◌, Bool, false, ◌&&◌, ◌||◌, List, [], ◌∷◌, Option, none, some, ◌==◌, if◌then◌else◌, is_empty,
  bytes_eq, leb, ltb, length, drop, ◌-◌,
}
use pcsuite_rs.Base.Wire.{Bytes, codes, starts_with}
use pcsuite_rs.Base.Maybe.{◌>>=◌, or_else}
use pcsuite_rs.Base.Text.{strip_prefix, split_once, from_str_radix, trim_start}
use pcsuite_rs.Base.Text.Parts.{behind_first}
use pcsuite_rs.FileTrans.Receiver.{file_name_of}

abbrev pub share_service_id : Bytes
share_service_id = codes "com.vivo.share.CONNECT_PC"

abbrev pub default_share_port : ℕ
default_share_port = 8080

abbrev pub max_frame_buf : ℕ
max_frame_buf = 2 ^ 20

-- `s.trim_start_matches('"')`
abbrev pub skip_quotes : Bytes → Bytes
skip_quotes [] = []
skip_quotes (b ∷ bs) = let rest = skip_quotes bs in if b == b'"' then rest else b ∷ bs

-- `s.chars().take_while(|c| c.is_ascii_digit())`
abbrev pub leading_digits : Bytes → Bytes
leading_digits [] = []
leading_digits (b ∷ bs) =
    let rest = leading_digits bs in if leb 48 b && leb b 57 then b ∷ rest else []

-- The port is scraped out of a text that is not quite JSON.
unfoldable pub parse_extra_port : Bytes → ℕ
parse_extra_port extra =
    or_else
      (do
        rest ← behind_first (codes "\"port\"") extra
        val ← behind_first (codes ":") rest
        from_str_radix 10 (2 ^ 16) (leading_digits (skip_quotes (trim_start val))))
      8080

-- `action:<id>:<name>[?<json>]`; anything else is no action.
unfoldable pub parse_action : Bytes → Option (Bytes × Bytes × Bytes)
parse_action msg = do
  rest ← strip_prefix (codes "action:") msg
  after ← (split_once b':' rest).1
  some ((split_once b':' rest).0, (split_once b'?' after).0, or_else ((split_once b'?' after).1) [])

abbrev pub ends_with : Bytes → Bytes → Bool
ends_with s suffix =
    leb (length suffix) (length s) && bytes_eq (drop (length s - length suffix) s) suffix

-- Whether `sweep_partials` removes the file of that name.
unfoldable pub is_partial : Bytes → Bool
is_partial name = starts_with name (codes ".vivoshare-") && ends_with name (codes ".zip.part")

-- The base name of an entry's path, unless it is no name.
unfoldable pub safe_basename : Bytes → Option Bytes
safe_basename name = do
  base ← file_name_of name
  if is_empty base || bytes_eq base (codes ".") || bytes_eq base (codes "..")
      then none
      else some base
