-- ===== src/Clipboard/Handshake.antt =====
-- crates/pcsuite-core/src/clipboard.rs: `clip_handshake`, `apply_shadow` and `await_relay`. What the
-- control channel's receiver and the deadline give is a list of events.
pub mod Answer
use pcsuite_rs.Base.{
  ℕ, suc, Bool, true, false, List, [], ◌∷◌, ◌++◌, Option, none, some, ltb, if◌then◌else◌,
}
use pcsuite_rs.Base.Wire.{Bytes}
use pcsuite_rs.Json.{Serde}
use pcsuite_rs.Clip.{PhoneSession, parse_shadow_reply, shadow_ready}
use pcsuite_rs.Clipboard.{Shared, ClipLink, link_off, link_pending, link_up, link_down}

abbrev pub shadow_startup_resends : ℕ
shadow_startup_resends = 2

-- A message, messages missed, the channel's end, and the deadline that passes.
pub data Event : Type 0 where
  message : Bytes → Event
  lagged channel_closed deadline_passed : Event

-- `sent` is what went to the phone over the control channel.
pub record Hand : Type 0 where
  pub shared : Shared
  pub sent : List Bytes

-- `listening`: no further event has come.
pub data HandEnd : Type 0 where
  answered gave_up listening : HandEnd

abbrev pub is_up : ClipLink → Bool
is_up link_up = true
is_up _ = false

abbrev pub with_session : PhoneSession → Shared → Shared
with_session sess sh = record sh {
  phone_key = some sess.phone_key;
  phone_iv = some sess.phone_iv;
  phone_id = sess.mobile_device_id;
}

abbrev pub set_link : ClipLink → Hand → Hand
set_link l h = record h { shared = record shared { link = l } }
  where
    open h use {shared}

-- After the wait: `came_up` is whether the link was seen up in time.
unfoldable pub await_relay : Bool → Hand → Hand
await_relay came_up h =
    if came_up then h else if is_up h.shared.link then h else set_link link_down h

abbrev pub say : Bytes → Hand → Hand
say t h = record h { sent = h.sent ++ (t ∷ []) }

module _ (s : Serde) where
  -- The session that the message carries is stored, and `ready` is sent; nothing without one.
  unfoldable pub apply_shadow : Bytes → Hand → Option Hand
  apply_shadow t h = elim (parse_shadow_reply s t) [
    | none ↦ none
    | some sess ↦ some (say (shadow_ready s) (record h { shared = with_session sess h.shared }))
  ]

  module _ (startup : Bytes) (came_up : Bool) where
    -- `armed` is whether there is a deadline still.
    unfoldable pub handshake_loop : ℕ → Bool → List Event → Hand → Hand × HandEnd
    handshake_loop resent armed [] h = (h, listening)
    handshake_loop resent armed (channel_closed ∷ es) h = (h, gave_up)
    handshake_loop resent armed (lagged ∷ es) h = handshake_loop resent armed es h
    handshake_loop resent armed (message t ∷ es) h = elim (apply_shadow t h) [
      | some h' ↦ (await_relay came_up h', answered)
      | none ↦ handshake_loop resent armed es h
    ]
    handshake_loop resent false (deadline_passed ∷ es) h = handshake_loop resent false es h
    handshake_loop resent true (deadline_passed ∷ es) h =
        let again = handshake_loop (suc resent) true es (say startup h) in
        let silent = handshake_loop resent false es (set_link link_down h) in
        if ltb resent shadow_startup_resends then again else silent

    -- `startup` is sent, a reply that came before is taken, and else the loop waits for one.
    unfoldable pub clip_handshake : Option Bytes → List Event → Hand → Hand × HandEnd
    clip_handshake last_shadow es h₀ =
        let h = say startup h₀ in
        let waited = handshake_loop 0 true es h in
        elim last_shadow [
          | none ↦ waited
          | some t ↦ elim (apply_shadow t h) [
            | some h' ↦ (await_relay came_up h', answered)
            | none ↦ waited
          ]
        ]
