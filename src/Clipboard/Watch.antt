-- ===== src/Clipboard/Watch.antt =====
-- crates/pcsuite-core/src/clipboard.rs: `watcher`, which looks at the clipboard of this computer and
-- sends what is new to the phone, and `fetch_image_task`. What the system's clipboard, the disk and the
-- clock gave in a round are in an `Observation`.
pub mod Marks
pub mod Kept
pub mod Echo
use pcsuite_rs.Base.{
  ℕ, Bool, true, false, not, ◌||◌, ◌&&◌, [], ◌∷◌, ◌++◌, Option, none, some, is_empty, if◌then◌else◌,
}
use pcsuite_rs.Base.Wire.{Bytes, codes}
use pcsuite_rs.Base.Maybe.{or_else}
use pcsuite_rs.Base.Text.Parts.{replace_byte}
use pcsuite_rs.Crypto.{Primitives}
use pcsuite_rs.Json.{Serde}
use pcsuite_rs.Clip.{ImageRef, clip_text_json, clip_image_ref_json}
use pcsuite_rs.Clipboard.{
  Shared, World, emit, set_image, mark, recently_synced, is_some, is_some_eq, build_frame,
  mime_from_path, clip_image_path,
}
use pcsuite_rs.Clipboard.Frames.{send_frame}

abbrev pub clip_nick : Bytes
clip_nick = codes "pcsuite"

-- `text` and `image_sig` are the clipboard's, `image` the bytes if they could be extracted, `staged`
-- whether the file could be written; `now` is the instant, the others are the wall clock's readings.
pub record Observation : Type 0 where
  pub text : Option Bytes
  pub image_sig : Option Bytes
  pub image : Option Bytes
  pub staged : Bool
  pub now : ℕ
  pub staged_ms : ℕ
  pub now_ms : ℕ

-- What already stands on the clipboard when the watcher starts is not sent.
unfoldable pub seed : Observation → World → World
seed o w = record w {
  shared = record shared {
    last_text = elim o.text [ some cur ↦ some cur | none ↦ shared.last_text ];
    last_image_sig = o.image_sig;
  };
}
  where
    open w use {shared}

module _ (p : Primitives) (s : Serde) (pc_id device_name temp_dir : Bytes) where
  unfoldable pub watch_text : Bytes → Observation → World → World
  watch_text cur o w =
      let sh = w.shared in
      if not (is_some sh.outgoing) || is_some_eq sh.last_text cur || recently_synced cur o.now sh
      then w
      else send_frame
          (build_frame p (clip_text_json s pc_id device_name clip_nick cur o.now_ms) sh.pc_key
            sh.pc_iv sh.phone_id pc_id 2)
          (record w { shared = mark cur o.now (record sh { last_text = some cur }) })

  -- The image's signature is remembered whether or not its bytes can be had; not if they cannot be
  -- written.
  unfoldable pub watch_image : Bytes → Observation → World → World
  watch_image sig o w =
      let sh = w.shared in
      let seen : World = record w { shared = record sh { last_image_sig = some sig } } in
      if not (is_some sh.outgoing && not (is_some_eq sh.last_image_sig sig))
      then w
      else elim o.image [
        | none ↦ seen
        | some bytes ↦
            if not o.staged
            then w
            else send_frame
                (build_frame p
                  (clip_image_ref_json s pc_id device_name clip_nick
                    (replace_byte b'/' b'\\' (clip_image_path temp_dir o.staged_ms))
                    (codes "image/jpeg") o.now_ms)
                  sh.pc_key sh.pc_iv sh.phone_id pc_id 2)
                seen
      ]

  -- One round of the loop: the text, if there is one, and else the image.
  unfoldable pub watch_round : Observation → World → World
  watch_round o w =
      let cur = or_else o.text [] in
      if not (is_empty cur)
      then watch_text cur o w
      else elim o.image_sig [ none ↦ w | some sig ↦ watch_image sig o w ]

-- `fetch_image_task` behind the fetch, which gives the bytes or fails; `was_set` is whether the
-- clipboard took them, `sig` the signature that it has then.
unfoldable pub finish_fetch : ImageRef → Option Bytes → Bool → Option Bytes → World → World
finish_fetch img fetched was_set sig w = elim fetched [
  | none ↦ w
  | some bytes ↦
      let tried = emit (set_image bytes (mime_from_path img.path)) w in
      if not was_set then tried else elim sig [
        | none ↦ tried
        | some now_there ↦ record tried {
          shared = record tried.shared { last_image_sig = some now_there };
        }
      ]
]
