-- ===== src/Clipboard/Relay.antt =====
-- crates/pcsuite-core/src/clipboard.rs: `handle_8904`, one connection of the phone to the relay, and
-- `spawn_8904_server` around it. Reads are a list (Base/Streams).
pub mod Framing
use pcsuite_rs.Base.{
  ℕ, zero, suc, Bool, true, false, List, [], ◌∷◌, ◌++◌, Option, none, some, length, drop, is_empty,
  if◌then◌else◌,
}
use pcsuite_rs.Base.Wire.{Bytes}
use pcsuite_rs.Base.Outcome.{Outcome, ok, panic}
use pcsuite_rs.Base.Streams.{Read, got, failed}
use pcsuite_rs.Crypto.{Primitives, Crypted, good, bad}
use pcsuite_rs.Ruying.{RuyingFrame, Parsed, frame, need_more, invalid, parse}
use pcsuite_rs.Json.{Serde}
use pcsuite_rs.Clip.{command_announce, command_request_clipboard}
use pcsuite_rs.Clipboard.{Shared, World, emit, queue_frame, link_up, link_down, build_frame}
use pcsuite_rs.Clipboard.Frames.{Probes, on_frame}

-- How a connection's loop ended; `waiting` is a read that has not returned.
pub data Ended : Type 0 where
  at_eof at_error waiting : Ended

-- The read loop, for any handler of frames and any state that it changes.
module _ {ℓ} {S : Type ℓ} (handle : RuyingFrame → S → S) where
  -- The inner loop: a frame is drained and handled; what is no frame clears the buffer. Each round
  -- drains a byte at least, so a round for each byte and one that stops are enough.
  unfoldable pub drain_loop : ℕ → Bytes → S → Outcome (Bytes × S)
  drain_loop zero buf st = ok (buf, st)
  drain_loop (suc fuel) buf st = elim (parse buf) [
    | panic ↦ panic
    | ok (frame f used) ↦ drain_loop fuel (drop used buf) (handle f st)
    | ok (need_more n) ↦ ok (buf, st)
    | ok invalid ↦ ok ([], st)
  ]

  unfoldable pub drain : Bytes → S → Outcome (Bytes × S)
  drain buf st = drain_loop (suc (length buf)) buf st

  unfoldable pub read_loop : List Read → Bytes → S → Outcome (Bytes × S × Ended)
  read_loop [] buf st = ok (buf, st, waiting)
  read_loop (failed ∷ reads) buf st = ok (buf, st, at_error)
  read_loop (got c ∷ reads) buf st =
      if is_empty c
      then ok (buf, st, at_eof)
      else elim (drain (buf ++ c) st) [ panic ↦ panic | ok (buf', st') ↦ read_loop reads buf' st' ]

module _ (p : Primitives) (s : Serde) (pc_id : Bytes) (probes : Probes) (clock : ℕ → ℕ)
    (uuid : ℕ → Bytes) where
  abbrev set_outgoing : Option ℕ → World → World
  set_outgoing o w = record w { shared = record shared { outgoing = o } }
    where
      open w use {shared}

  abbrev handshake_frame : Bytes → World → Crypted Bytes
  handshake_frame text w =
      build_frame p text w.shared.pc_key w.shared.pc_iv w.shared.phone_id pc_id 100

  -- One connection, without the environment's opt-in requests: the handshake frames, the read loop, and
  -- `outgoing` cleared behind it. A `?` returns before that.
  unfoldable pub handle_8904 : ℕ → List Read → World → Outcome (World × Ended)
  handle_8904 conn reads w₀ =
      let w : World = set_outgoing (some conn) w₀ in
      elim (handshake_frame (command_announce s pc_id) w) [
        | bad e ↦ ok (w, at_error)
        | good f1 ↦ elim (handshake_frame (command_request_clipboard s) w) [
          | bad e ↦ ok (w, at_error)
          | good f2 ↦
              elim (read_loop (on_frame p s pc_id probes clock uuid) reads []
                (emit (queue_frame conn f2) (emit (queue_frame conn f1) w))) [
                  | panic ↦ panic
                  | ok (buf, w', at_eof) ↦ ok (set_outgoing none w', at_eof)
                  | ok (buf, w', at_error) ↦ ok (w', at_error)
                  | ok (buf, w', waiting) ↦ ok (w', waiting)
                ]
        ]
      ]

  -- The accept loop: connections are served one after the other, `link` following them.
  abbrev set_link_up : World → World
  set_link_up w = record w { shared = record shared { link = link_up } }
    where
      open w use {shared}

  abbrev set_link_down : World → World
  set_link_down w = record w { shared = record shared { link = link_down } }
    where
      open w use {shared}

  unfoldable pub serve_8904 : ℕ → List (List Read) → World → Outcome World
  serve_8904 conn [] w = ok w
  serve_8904 conn (reads ∷ later) w = elim (handle_8904 conn reads (set_link_up w)) [
    | panic ↦ panic
    | ok (w', waiting) ↦ ok w'
    | ok (w', at_eof) ↦ serve_8904 (suc conn) later (set_link_down w')
    | ok (w', at_error) ↦ serve_8904 (suc conn) later (set_link_down w')
  ]
