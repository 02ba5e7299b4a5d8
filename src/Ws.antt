-- ===== src/Ws.antt =====
-- crates/pcsuite-net/src/ws.rs: the WebSocket client's frames. A stream is the bytes that arrive on it,
-- what is sent is the bytes that leave, and the random mask is an argument.
pub mod RoundTrip
pub mod Upgrade
mod Tests
use pcsuite_rs.Base.{
  ℕ, zero, suc, ◌+◌, ◌-◌, ◌%◌, ◌<◌, ◌≤◌, ◌≡◌, refl, Bool, true, false, not, ◌&&◌, ◌||◌, List, [],
  ◌∷◌, ◌++◌, length, ltb, leb, if◌then◌else◌, ◌==◌, bytes_eq, take, drop, get_or, bit_and, bit_or,
  bit_xor,
}
use pcsuite_rs.Base.Wire.{Bytes, codes, to_be, from_be}
use pcsuite_rs.Base.Outcome.{u16_mod, usize_mod}
use pcsuite_rs.Base.Utf8.{from_utf8_lossy}
use pcsuite_rs.Base.Result.{Result, done, bail, ◌>>=◌}

pub data WsFrame : Type 0 where
  text binary ping pong : Bytes → WsFrame
  close : WsFrame

-- `b ^ mask[i & 3]` for each byte, counted from `i`.
unfoldable pub mask_from : ℕ → Bytes → Bytes → Bytes
mask_from i mask [] = []
mask_from i mask (b ∷ bs) = bit_xor b (get_or mask (bit_and i 3) 0) ∷ mask_from (i + 1) mask bs

-- The length byte with the mask bit, and the extended length behind it.
unfoldable pub length_field : ℕ → Bytes
length_field n =
    if ltb n 126
    then bit_or 0x80 n ∷ []
    else if ltb n 65536
    then bit_or 0x80 126 ∷ to_be 2 (n % u16_mod)
    else bit_or 0x80 127 ∷ to_be 8 (n % usize_mod)

unfoldable pub send_frame : Bytes → ℕ → Bytes → Bytes
send_frame mask opcode payload =
    (bit_or 0x80 opcode ∷ (length_field (length payload) ++ mask)) ++ mask_from 0 mask payload

unfoldable pub send_text : Bytes → Bytes → Bytes
send_text mask s = send_frame mask 0x1 s

unfoldable pub send_binary : Bytes → Bytes → Bytes
send_binary mask b = send_frame mask 0x2 b

unfoldable pub send_pong : Bytes → Bytes → Bytes
send_pong mask b = send_frame mask 0xA b

unfoldable pub send_ping : Bytes → Bytes
send_ping mask = send_frame mask 0x9 []

-- `read_exact` of `n` bytes: those and what is left of the stream.
unfoldable pub read_exact : ℕ → Bytes → Result (Bytes × Bytes)
read_exact n s = if ltb (length s) n then bail "early eof" else done (take n s, drop n s)

unfoldable pub read_len : ℕ → Bytes → Result (ℕ × Bytes)
read_len len s =
    if len == 126
    then (do (e, s) ← read_exact 2 s; done (from_be e, s))
    else if len == 127
    then (do (e, s) ← read_exact 8 s; done (from_be e, s))
    else done (len, s)

-- `if let Some(m) = mask { … }` on the payload that follows.
unfoldable pub read_payload : Bool → ℕ → Bytes → Result (Bytes × Bytes)
read_payload true len s = do
  (m, s) ← read_exact 4 s
  (payload, s) ← read_exact len s
  done (mask_from 0 m payload, s)
read_payload false len s = read_exact len s

unfoldable pub frame_of : ℕ → Bytes → WsFrame
frame_of opcode payload =
    if opcode == 0x1
    then text (from_utf8_lossy payload)
    else if opcode == 0x2 || opcode == 0x0
    then binary payload
    else if opcode == 0x8
    then close
    else if opcode == 0x9
    then ping payload
    else if opcode == 0xA
    then pong payload
    else binary payload

unfoldable pub recv : Bytes → Result (WsFrame × Bytes)
recv s = do
  (h, s) ← read_exact 2 s
  let opcode = bit_and (get_or h 0 0) 0x0f
  let masked = not (bit_and (get_or h 1 0) 0x80 == 0)
  (len, s) ← read_len (bit_and (get_or h 1 0) 0x7f) s
  (payload, s) ← read_payload masked len s
  done (frame_of opcode payload, s)

abbrev pub terminator : Bytes
terminator = 13 ∷ 10 ∷ 13 ∷ 10 ∷ []

-- `buf.len() >= 4 && &buf[buf.len() - 4..] == b"\r\n\r\n"`
unfoldable pub is_ended : Bytes → Bool
is_ended buf = leb 4 (length buf) && bytes_eq (drop (length buf - 4) buf) terminator

-- The loop of `upgrade`: the head, and what is left of the stream.
unfoldable pub upgrade_loop : Bytes → Bytes → Result (Bytes × Bytes)
upgrade_loop buf [] = bail "early eof"
upgrade_loop buf (b ∷ s) =
    let now = buf ++ (b ∷ []) in
    let rest = upgrade_loop now s in
    if is_ended now then done (now, s) else if ltb 8192 (length now) then done (now, s) else rest
