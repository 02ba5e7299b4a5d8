-- ===== src/Clipboard.antt =====
-- crates/pcsuite-core/src/clipboard.rs: the shared clipboard over the 8904 relay. The state is `Shared`;
-- what a handler does to the outside is a list of effects. Instants are nanoseconds; a handler reads
-- the clock once.
pub mod Frames
pub mod Relay
pub mod Watch
pub mod Handshake
pub mod Delivery
mod Tests
use pcsuite_rs.Base.{
  ℕ, ◌-◌, Bool, true, false, not, List, [], ◌∷◌, ◌++◌, Option, none, some, length, ltb, min,
  if◌then◌else◌, bytes_eq, take, replicate, splice,
}
use pcsuite_rs.Base.Wire.{Bytes, codes}
use pcsuite_rs.Base.Text.{to_decimal}
use pcsuite_rs.Base.Text.Parts.{after_last, to_ascii_lowercase, join_path}
use pcsuite_rs.Crypto.{Primitives, Crypted, ◌>>=◌, good}
use pcsuite_rs.Crypto.Gcm.{gcm_encrypt}
use pcsuite_rs.Ruying.{RuyingFrame, build, version_byte}
use pcsuite_rs.Clip.{ImageRef}

abbrev pub echo_window : ℕ
echo_window = 6_000_000_000

pub data ClipLink : Type 0 where
  link_off link_pending link_up link_down : ClipLink

unfoldable pub link_as_str : ClipLink → Bytes
link_as_str link_off = codes "off"
link_as_str link_pending = codes "pending"
link_as_str link_up = codes "up"
link_as_str link_down = codes "down"

-- `outgoing` is the number of the connection whose writer takes the frames; `link` is what the
-- session's watchers see.
pub record Shared : Type 0 where
  pub pc_key : Bytes
  pub pc_iv : Bytes
  pub phone_key : Option Bytes
  pub phone_iv : Option Bytes
  pub phone_id : Bytes
  pub outgoing : Option ℕ
  pub last_text : Option Bytes
  pub recent : List (Bytes × ℕ)
  pub fetch_host : Bytes
  pub fetch_port : ℕ
  pub last_image_ref : Option Bytes
  pub last_image_sig : Option Bytes
  pub apply_incoming : Bool
  pub link : ClipLink

unfoldable pub new_shared : Bytes → Bytes → Bytes → ℕ → Bool → ClipLink → Shared
new_shared pc_key pc_iv fetch_host fetch_port apply_incoming link = record {
  pc_key = pc_key;
  pc_iv = pc_iv;
  phone_key = none;
  phone_iv = none;
  phone_id = codes "52467a";
  outgoing = none;
  last_text = none;
  recent = [];
  fetch_host = fetch_host;
  fetch_port = fetch_port;
  last_image_ref = none;
  last_image_sig = none;
  apply_incoming = apply_incoming;
  link = link;
}

-- `recent.get(text)`
abbrev pub recent_at : Bytes → List (Bytes × ℕ) → Option ℕ
recent_at text [] = none
recent_at text ((t, ts) ∷ rest) =
    let later = recent_at text rest in if bytes_eq text t then some ts else later

abbrev pub without : Bytes → List (Bytes × ℕ) → List (Bytes × ℕ)
without text [] = []
without text ((t, ts) ∷ rest) =
    let later = without text rest in if bytes_eq text t then later else (t, ts) ∷ later

abbrev pub retain_recent : ℕ → List (Bytes × ℕ) → List (Bytes × ℕ)
retain_recent now [] = []
retain_recent now ((t, ts) ∷ rest) =
    let later = retain_recent now rest in
    if ltb (now - ts) echo_window then (t, ts) ∷ later else later

unfoldable pub mark : Bytes → ℕ → Shared → Shared
mark text now sh = record sh { recent = retain_recent now ((text, now) ∷ without text sh.recent) }

unfoldable pub recently_synced : Bytes → ℕ → Shared → Bool
recently_synced text now sh = elim (recent_at text sh.recent) [
  | none ↦ false
  | some ts ↦ ltb (now - ts) echo_window
]

-- `x.as_deref() == Some(y)`
abbrev pub is_some_eq : Option Bytes → Bytes → Bool
is_some_eq none y = false
is_some_eq (some x) y = bytes_eq x y

abbrev pub is_some {ℓ} : {A : Type ℓ} → Option A → Bool
is_some none = false
is_some (some a) = true

unfoldable pub pad6 : Bytes → Bytes
pad6 s = let n = min (length s) 6 in splice 0 (take n s) (replicate 6 0)

abbrev pub frame_of : Bytes → Bytes → ℕ → ℕ → Bytes → RuyingFrame
frame_of field_a field_b byte_c byte_d cipher = record {
  version = version_byte;
  field_a = pad6 field_a;
  field_b = pad6 field_b;
  byte_c = byte_c;
  byte_d = byte_d;
  field_e = codes "00000000000";
  cipher = cipher;
}

module _ (p : Primitives) where
  -- The cipher is made under the key and the iv, and framed for the device `field_a`.
  unfoldable pub build_frame : Bytes → Bytes → Bytes → Bytes → Bytes → ℕ → Crypted Bytes
  build_frame plain key iv field_a field_b byte_c = do
    cipher ← gcm_encrypt p plain key iv []
    good (build (frame_of field_a field_b byte_c 0 cipher))

unfoldable pub mime_from_path : Bytes → Bytes
mime_from_path path =
    let ext = to_ascii_lowercase (after_last b'.' path) in
    if bytes_eq ext (codes "png")
    then codes "image/png"
    else if bytes_eq ext (codes "gif")
    then codes "image/gif"
    else if bytes_eq ext (codes "bmp")
    then codes "image/bmp"
    else if bytes_eq ext (codes "tif")
    then codes "image/tiff"
    else if bytes_eq ext (codes "tiff")
    then codes "image/tiff"
    else codes "image/jpeg"

-- Where `write_clip_image` puts the image, in the directory for temporary files.
unfoldable pub clip_image_path : Bytes → ℕ → Bytes
clip_image_path temp_dir ts =
    join_path (join_path temp_dir (codes "pcsuite-clip"))
      (codes "img_" ++ (to_decimal ts ++ codes ".jpeg"))

-- What the handlers do: a frame for a connection's writer, a text or an image for the clipboard of this
-- computer, a task that fetches an image, bytes appended to the dump file.
pub data Effect : Type 0 where
  queue_frame : ℕ → Bytes → Effect
  set_text : Bytes → Effect
  spawn_fetch : ImageRef → Effect
  set_image : Bytes → Bytes → Effect
  dump_index : Bytes → Effect

pub record World : Type 0 where
  pub shared : Shared
  pub ticks : ℕ
  pub effects : List Effect

abbrev pub emit : Effect → World → World
emit e w = record w { effects = w.effects ++ (e ∷ []) }
