-- ===== src/Ws/Tests.antt =====
-- Runs of the WebSocket client, and its theorems at concrete inputs.
use pcsuite_rs.Base.{ℕ, ◌≡◌, refl, arith, List, [], ◌∷◌, ◌++◌, some, length, replicate}
use pcsuite_rs.Base.Wire.{Bytes, codes, position_of, position_from, starts_with}
use pcsuite_rs.Base.Result.{done, bail}
use pcsuite_rs.Ws.{
  text, binary, send_frame, send_ping, length_field, mask_from, recv, read_exact, read_len,
  read_payload, frame_of, terminator, upgrade_loop,
}
use pcsuite_rs.Ws.{ping}
use pcsuite_rs.Ws.RoundTrip.{a_ping, recv-Received}
use pcsuite_rs.Ws.Upgrade.{upgrade_loop-head}

abbrev mask : Bytes
mask = 1 ∷ 2 ∷ 3 ∷ 4 ∷ []

sent_ping : send_ping mask ≡ 0x89 ∷ 0x80 ∷ 1 ∷ 2 ∷ 3 ∷ 4 ∷ []
unfolding send_ping send_frame length_field mask_from
sent_ping = refl

server_text : recv (0x81 ∷ 2 ∷ (codes "hi" ++ (7 ∷ []))) ≡ done (text (codes "hi"), 7 ∷ [])
unfolding recv read_exact read_len read_payload frame_of pcsuite_rs.Base.Utf8.from_utf8_lossy
server_text = refl

cut_short : recv (0x82 ∷ 5 ∷ codes "hi") ≡ bail "early eof"
unfolding recv read_exact read_len read_payload
cut_short = refl

unknown_opcode : frame_of 3 (codes "x") ≡ binary (codes "x")
unfolding frame_of
unknown_opcode = refl

recv-Received_example :
    recv (send_frame mask 0x9 (codes "hi") ++ (7 ∷ [])) ≡ done (ping (codes "hi"), 7 ∷ [])
recv-Received_example =
    recv-Received mask 0x9 (codes "hi") (7 ∷ []) (ping (codes "hi")) (a_ping (codes "hi")) refl
      (omega arith, (omega arith, (omega arith, (omega arith, tt))))
      (omega arith, (omega arith, tt)) (omega arith)

abbrev status_line : Bytes
status_line = codes "HTTP/1.1 101"

status_first : position_of terminator (status_line ++ terminator) ≡ some (length status_line)
unfolding position_of position_from starts_with
status_first = refl

upgrade_loop-head_example :
    upgrade_loop [] ((status_line ++ terminator) ++ (0x81 ∷ 0 ∷ []))
    ≡ done (status_line ++ terminator, 0x81 ∷ 0 ∷ [])
upgrade_loop-head_example = upgrade_loop-head status_line (0x81 ∷ 0 ∷ []) status_first (omega arith)
