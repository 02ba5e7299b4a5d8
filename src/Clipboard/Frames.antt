-- ===== src/Clipboard/Frames.antt =====
-- crates/pcsuite-core/src/clipboard.rs: `on_frame`, what is done with a frame from the phone.
use pcsuite_rs.Base.{
  ℕ, ◌+◌, Bool, false, not, ◌||◌, [], ◌∷◌, ◌++◌, Option, none, some, ◌==◌, if◌then◌else◌,
}
use pcsuite_rs.Base.Wire.{Bytes, codes}
use pcsuite_rs.Base.Maybe.{◌>>=◌, or_else}
use pcsuite_rs.Base.Utf8.{from_utf8_lossy}
use pcsuite_rs.Base.Text.{contains, from_str_radix}
use pcsuite_rs.Base.Int.{ℤ, pos, parse_i64, show_i64}
use pcsuite_rs.Crypto.{Primitives, Crypted, good, bad}
use pcsuite_rs.Crypto.Gcm.{gcm_encrypt, gcm_decrypt}
use pcsuite_rs.Ruying.{RuyingFrame, build}
use pcsuite_rs.Json.{Serde}
use pcsuite_rs.Clip.{
  ImageRef, clip_text_from_json, clip_image_from_json, command_local_device,
  command_register_remote,
}
use pcsuite_rs.Clipboard.{
  Shared, World, emit, queue_frame, set_text, spawn_fetch, dump_index, mark, recently_synced,
  is_some_eq, frame_of, build_frame,
}

-- The environment variables of the index probe, `none` or `false` when they are not set.
pub record Probes : Type 0 where
  pub dumps_index : Bool
  pub replies_sync : Bool
  pub sync_type : Option Bytes
  pub sync_byte_d : Option Bytes
  pub wraps_array : Bool

abbrev pub no_probes : Probes
no_probes = record {
  dumps_index = false;
  replies_sync = false;
  sync_type = none;
  sync_byte_d = none;
  wraps_array = false;
}

-- `s.replace('\\', "\\\\").replace('"', "\\\"")`
abbrev pub escape_quotes : Bytes → Bytes
escape_quotes [] = []
escape_quotes (b ∷ bs) =
    let rest = escape_quotes bs in if b == b'\\' || b == b'"' then b'\\' ∷ b ∷ rest else b ∷ rest

-- The sync state of the reply, all zero: the inner text of the task.
unfoldable pub sync_inner : Bytes → Bytes → Bytes → Bytes
sync_inner pc_id phone_id task_id =
    codes "{\"sourceDeviceId\":\""
    ++ (pc_id
        ++ (codes "\",\"targetDeviceId\":\""
            ++ (phone_id
                ++ (codes "\",\"lastReceiveVersion\":0,\"modifiedTime\":0,\"syncTag\":\""
                    ++ (task_id
                        ++ codes
                            "\",\"syncedPublicDataCount\":0,\"syncedMaxPublicDataFilesId\":0,\"pubVersion\":0}")))))

unfoldable pub sync_task : Bytes → Bytes → ℤ → Bytes
sync_task inner task_id ty =
    codes "[{\"data\":\""
    ++ (escape_quotes inner
        ++ (codes "\",\"taskId\":\""
            ++ (task_id ++ (codes "\",\"type\":" ++ (show_i64 ty ++ codes "}]")))))

module _ (s : Serde) where
  -- A text is put on the clipboard unless it stands there, was synced just now, or nothing is applied.
  unfoldable pub receive_text : Bytes → ℕ → World → World
  receive_text text now w =
      let sh = w.shared in
      if not sh.apply_incoming || is_some_eq sh.last_text text || recently_synced text now sh
      then w
      else emit (set_text text)
          (record w { shared = mark text now (record sh { last_text = some text }) })

  -- An image is fetched unless its path was the last one, or nothing is applied.
  unfoldable pub receive_image : ImageRef → World → World
  receive_image img w =
      let sh = w.shared in
      if not sh.apply_incoming || is_some_eq sh.last_image_ref img.path
      then w
      else emit (spawn_fetch img)
          (record w { shared = record sh { last_image_ref = some img.path } })

  -- `byteC` 2: a clipboard.
  unfoldable pub on_clip_frame : Bytes → ℕ → World → World
  on_clip_frame text now w = elim (clip_text_from_json s text) [
    | some clip_text ↦ receive_text clip_text now w
    | none ↦ elim (clip_image_from_json s text) [ some img ↦ receive_image img w | none ↦ w ]
  ]

-- The reply's frame, if it could be built, goes to the connection, if there is one.
abbrev pub send_frame : Crypted Bytes → World → World
send_frame (bad e) w = w
send_frame (good frame) w = elim w.shared.outgoing [
  | none ↦ w
  | some conn ↦ emit (queue_frame conn frame) w
]

module _ (p : Primitives) (s : Serde) (pc_id : Bytes) where
  -- `byteC` 100: the phone's `command:1` is answered by a `command:6` with its device.
  unfoldable pub on_command_frame : Bytes → World → World
  on_command_frame text w =
      let sh = w.shared in
      elim (command_local_device s text) [
        | none ↦ w
        | some local_device ↦
            send_frame
              (build_frame p (command_register_remote s local_device) sh.pc_key sh.pc_iv sh.phone_id
                pc_id 100)
              w
      ]

  -- The reply to the phone's sync beacon, under a fresh task id.
  unfoldable pub reply_sync : Probes → Bytes → World → World
  reply_sync probes task_id w =
      let sh = w.shared in
      let ty : ℤ = or_else (probes.sync_type >>= parse_i64) (pos 1000) in
      let byte_d : ℕ = or_else (probes.sync_byte_d >>= from_str_radix 10 256) 0 in
      let state : Bytes = sync_inner pc_id sh.phone_id task_id in
      let inner : Bytes = if probes.wraps_array then b'[' ∷ (state ++ (b']' ∷ [])) else state in
      elim (gcm_encrypt p (sync_task inner task_id ty) sh.pc_key sh.pc_iv []) [
        | bad e ↦ w
        | good cipher ↦ send_frame (good (build (frame_of sh.phone_id pc_id 8 byte_d cipher))) w
      ]

  -- `byteC` 8: the index of the phone's media, looked at by the probes only.
  unfoldable pub on_index_frame : Probes → Bytes → Bytes → Bytes → World → World
  on_index_frame probes task_id plain text w =
      let dumped = if probes.dumps_index then emit (dump_index plain) w else w in
      if probes.replies_sync
      then if contains text (codes "\"type\":10005")
        then reply_sync probes task_id dumped
        else dumped
      else dumped

  -- The plaintext of a frame under the phone's key.
  unfoldable pub open_frame : RuyingFrame → Shared → Option Bytes
  open_frame f sh = elim sh.phone_key [
    | none ↦ none
    | some pk ↦ elim sh.phone_iv [
      | none ↦ none
      | some piv ↦ elim (gcm_decrypt p f.cipher pk piv []) [
        | bad e ↦ none
        | good plain ↦ some plain
      ]
    ]
  ]

  module _ (probes : Probes) (clock : ℕ → ℕ) (uuid : ℕ → Bytes) where
    -- What is done with the text of a frame, by the frame's `byteC`.
    unfoldable pub dispatch : ℕ → Bytes → World → World
    dispatch byte_c plain w =
        let text = from_utf8_lossy plain in
        if byte_c == 2
        then on_clip_frame s text (clock w.ticks) w
        else if byte_c == 100
        then on_command_frame text w
        else if byte_c == 8
        then on_index_frame probes (uuid w.ticks) plain text w
        else w

    -- `on_frame`: nothing without the phone's key, or when the cipher does not open.
    unfoldable pub on_frame : RuyingFrame → World → World
    on_frame f w₀ =
        let w : World = record w₀ { ticks = w₀.ticks + 1 } in
        elim (open_frame f w₀.shared) [ none ↦ w | some plain ↦ dispatch f.byte_c plain w ]
