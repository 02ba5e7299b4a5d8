-- ===== src/Clip/Echoes.antt =====
-- Messages of this computer that come back to it: crates/pcsuite-proto/src/clip.rs.
use pcsuite_rs.Base.{
  ℕ, ◌^◌, ◌<◌, ◌≡◌, refl, ◌∙◌, true, length, none, bytes_eq, arith, ltb, lt→ltb, ◌++◌, drop-append,
}
use pcsuite_rs.Base.Wire.{Bytes}
use pcsuite_rs.Base.Utf8.{is_utf8}
use pcsuite_rs.Base.Search.{starts_with-append}
use pcsuite_rs.Base.Text.{strip_prefix}
use pcsuite_rs.Base.Outcome.{u16_mod}
use pcsuite_rs.Json.{Value, Serde, Laws, is_plain, get}
use pcsuite_rs.Clip.{
  PcInfo, shadow_prefix, session_from, startup_value, ready_value, announce_value,
  request_clipboard_value, register_remote_value, shadow_startup, shadow_ready, parse_shadow_reply,
  command_announce, command_request_clipboard, command_local_device, command_register_remote,
}

-- The texts of the announcement, which Rust's types make UTF-8.
pub record IsText (pc : PcInfo) : Type 0 where
  pub ip_text : is_utf8 pc.ip ≡ true
  pub id_text : is_utf8 pc.pc_device_id ≡ true
  pub name_text : is_utf8 pc.pc_device_name ≡ true
  pub key_text : is_utf8 pc.key ≡ true
  pub iv_text : is_utf8 pc.iv ≡ true
  pub open_id_text : is_utf8 pc.account_open_id ≡ true
  pub account_text : is_utf8 pc.account_name ≡ true
  pub connect_text : is_utf8 pc.connect_type ≡ true

module _ (s : Serde) (laws : Laws s) where
  startup_value-is_plain :
      (pc : PcInfo) (relay_port vdfs_port : ℕ)
      → IsText pc
      → relay_port < u16_mod
      → vdfs_port < u16_mod
      → is_plain 127 (startup_value pc relay_port vdfs_port) ≡ true
  unfolding startup_value is_plain is_utf8 bytes_eq
  startup_value-is_plain pc relay_port vdfs_port t r v =
      let relay_fits : ltb relay_port (2 ^ 64) ≡ true = lt→ltb relay_port (2 ^ 64) (omega arith) in
      let vdfs_fits : ltb vdfs_port (2 ^ 64) ≡ true = lt→ltb vdfs_port (2 ^ 64) (omega arith) in
      rw
        (
          t.ip_text, t.id_text, t.name_text, t.key_text, t.iv_text, t.open_id_text, t.account_text,
          t.connect_text, relay_fits, vdfs_fits,
        )
        refl

  pub reply_of :
      (v : Value)
      → is_plain 127 v ≡ true
      → parse_shadow_reply s (shadow_prefix ++ s.to_string v) ≡ session_from v
  unfolding parse_shadow_reply strip_prefix
  reply_of v h =
      rw
        (
          starts_with-append shadow_prefix (s.to_string v),
          drop-append (length shadow_prefix) shadow_prefix (s.to_string v) refl,
          laws.reads v h,
        )
        refl

  -- An echo of our own `startup` or `ready` is no reply to the handshake, whatever the identity, and
  -- none of our own commands is taken for the phone's announcement.
  pub own_messages_ignored :
      (pc : PcInfo) (relay_port vdfs_port : ℕ) (device : Bytes)
      → IsText pc
      → relay_port < u16_mod
      → vdfs_port < u16_mod
      → is_utf8 device ≡ true
      → (parse_shadow_reply s (shadow_startup s pc relay_port vdfs_port) ≡ none)
        × (parse_shadow_reply s (shadow_ready s) ≡ none)
        × (command_local_device s (command_announce s pc.pc_device_id) ≡ none)
        × (command_local_device s (command_request_clipboard s) ≡ none)
        × (command_local_device s (command_register_remote s device) ≡ none)
  unfolding shadow_startup shadow_ready command_announce command_request_clipboard
      command_register_remote command_local_device
  own_messages_ignored pc relay_port vdfs_port device t r v d =
      let announce : is_plain 127 (announce_value pc.pc_device_id) ≡ true =
        unfold announce_value is_plain is_utf8 bytes_eq in rw t.id_text refl in
      let register : is_plain 127 (register_remote_value device) ≡ true =
        unfold register_remote_value is_plain is_utf8 bytes_eq in rw d refl in
      let request : is_plain 127 request_clipboard_value ≡ true =
        unfold request_clipboard_value is_plain is_utf8 bytes_eq in refl in
      let ready : is_plain 127 ready_value ≡ true =
        unfold ready_value is_plain is_utf8 bytes_eq in refl in
      (
        reply_of _ (startup_value-is_plain pc relay_port vdfs_port t r v)
            ∙ (unfold startup_value get bytes_eq in refl),
        reply_of _ ready ∙ (unfold ready_value get bytes_eq in refl),
        rw (laws.reads _ announce) (unfold announce_value get bytes_eq in refl),
        rw (laws.reads _ request) (unfold request_clipboard_value get bytes_eq in refl),
        rw (laws.reads _ register) (unfold register_remote_value get bytes_eq in refl),
      )
