-- ===== src/Clip/Messages.antt =====
-- Messages read back by the functions that the peer runs: crates/pcsuite-proto/src/clip.rs.
use pcsuite_rs.Base.{
  ℕ, ◌^◌, ◌<◌, ◌≡◌, refl, true, none, some, is_empty, ltb, bytes_eq, if◌then◌else◌, arith, lt→ltb,
}
use pcsuite_rs.Base.Wire.{Bytes, codes}
use pcsuite_rs.Base.Utf8.{is_utf8}
use pcsuite_rs.Base.Text.{contains}
use pcsuite_rs.Json.{Serde, Laws, is_plain, get}
use pcsuite_rs.Clip.{
  clip_text_value, clip_image_ref_value, clip_text_json, clip_text_from_json, clip_image_ref_json,
  clip_image_from_json,
}

-- The texts that a message carries, which Rust's types make UTF-8, and its time stamp, a `u64`.
pub record IsSender (pc_id device_name nick : Bytes) (ts_ms : ℕ) : Type 0 where
  pub id_text : is_utf8 pc_id ≡ true
  pub name_text : is_utf8 device_name ≡ true
  pub nick_text : is_utf8 nick ≡ true
  pub ts_fits : ts_ms < 2 ^ 64

module _ (s : Serde) (laws : Laws s) (pc_id device_name nick : Bytes) (ts_ms : ℕ)
    (w : IsSender pc_id device_name nick ts_ms) where
  abbrev fits : ltb ts_ms (2 ^ 64) ≡ true
  fits = lt→ltb ts_ms (2 ^ 64) w.ts_fits

  clip_text_value-is_plain :
      (text : Bytes)
      → is_utf8 text ≡ true
      → is_plain 127 (clip_text_value pc_id device_name nick text ts_ms) ≡ true
  unfolding clip_text_value is_plain is_utf8 bytes_eq
  clip_text_value-is_plain text h = rw (w.id_text, w.name_text, w.nick_text, fits, h) refl

  clip_image_ref_value-is_plain :
      (path mime : Bytes)
      → is_utf8 path ≡ true
      → is_utf8 mime ≡ true
      → is_plain 127 (clip_image_ref_value pc_id device_name nick path mime ts_ms) ≡ true
  unfolding clip_image_ref_value is_plain is_utf8 bytes_eq
  clip_image_ref_value-is_plain path mime h k =
      rw (w.id_text, w.name_text, w.nick_text, fits, h, k) refl

  pub clip_text_json-is_utf8 :
      (text : Bytes)
      → is_utf8 text ≡ true
      → is_utf8 (clip_text_json s pc_id device_name nick text ts_ms) ≡ true
  unfolding clip_text_json
  clip_text_json-is_utf8 text h = laws.prints_utf8 _ (clip_text_value-is_plain text h)

  -- The peer reads the text out of a text message, unless it is empty, and no image.
  pub clip_text_from_json-clip_text_json :
      (text : Bytes)
      → is_utf8 text ≡ true
      → let json = clip_text_json s pc_id device_name nick text ts_ms in
        (clip_text_from_json s json ≡ (if is_empty text then none else some text))
        × (clip_image_from_json s json ≡ none)
  unfolding clip_text_json clip_text_from_json clip_image_from_json
  clip_text_from_json-clip_text_json text h =
      let back = laws.reads _ (clip_text_value-is_plain text h) in
      (
        rw back (unfold clip_text_value get bytes_eq in refl),
        rw back (unfold clip_text_value get bytes_eq in refl),
      )

  -- The peer reads the path and the mime type out of an image message whose path is not empty and whose
  -- mime type names an image, and no text.
  pub clip_image_from_json-clip_image_ref_json :
      (path mime : Bytes)
      → is_utf8 path ≡ true
      → is_utf8 mime ≡ true
      → let json = clip_image_ref_json s pc_id device_name nick path mime ts_ms in
        (clip_image_from_json s json ≡ (
          if is_empty path
          then none
          else if contains mime (codes "image")
          then some (record { path = path; mime = mime })
          else none))
        × (clip_text_from_json s json ≡ none)
  unfolding clip_image_ref_json clip_text_from_json clip_image_from_json
  clip_image_from_json-clip_image_ref_json path mime h k =
      let back = laws.reads _ (clip_image_ref_value-is_plain path mime h k) in
      (
        rw back (
            unfold clip_image_ref_value get bytes_eq in
            ground (arith, contains mime (codes "image"))),
        rw back (unfold clip_image_ref_value get bytes_eq in refl),
      )
