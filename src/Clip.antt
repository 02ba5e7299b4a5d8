-- ===== src/Clip.antt =====
-- crates/pcsuite-proto/src/clip.rs: the messages of the super clipboard, the `SHADOW_LIKE` handshake on
-- the control socket and the JSON carried in 8904 frames.
pub mod Messages
pub mod Echoes
mod Tests
use pcsuite_rs.Base.{
  ℕ, Bool, true, false, not, List, [], ◌∷◌, ◌++◌, Option, none, some, is_empty, if◌then◌else◌,
}
use pcsuite_rs.Base.Wire.{Bytes, codes}
use pcsuite_rs.Base.Maybe.{◌>>=◌, or_else}
use pcsuite_rs.Base.Text.{strip_prefix, contains}
use pcsuite_rs.Base.Int.{pos, is_equal}
use pcsuite_rs.Json.{
  Value, boolean, number, string, pos_int, json_object, json_array, get, as_str, as_i64, as_array,
  first, Serde,
}

-- Identity and keys of the computer, announced in `startup`.
pub record PcInfo : Type 0 where
  pub ip : Bytes
  pub pc_device_id : Bytes
  pub pc_device_name : Bytes
  pub key : Bytes
  pub iv : Bytes
  pub account_open_id : Bytes
  pub account_name : Bytes
  pub connect_type : Bytes

pub record PhoneSession : Type 0 where
  pub phone_key : Bytes
  pub phone_iv : Bytes
  pub mobile_device_id : Bytes
  pub mobile_device_name : Bytes

pub record ImageRef : Type 0 where
  pub path : Bytes
  pub mime : Bytes

abbrev pub shadow_prefix : Bytes
shadow_prefix = codes "SHADOW_LIKE:"

abbrev text_of : Bytes → Value
text_of = string

abbrev int_of : ℕ → Value
int_of n = number (pos_int n)

-- `v.and_then(|v| v.as_str()).unwrap_or(d)`
abbrev str_or : Option Value → Bytes → Bytes
str_or v d = or_else (v >>= as_str) d

unfoldable pub startup_value : PcInfo → ℕ → ℕ → Value
startup_value pc relay_port vdfs_port = json_object (
    (codes "type", text_of (codes "startup"))
    ∷ (
      codes "data",
      json_object (
          (codes "version", int_of 1)
          ∷ (
            codes "pcInfo",
            json_object (
                (codes "ip", text_of pc.ip)
                ∷ (codes "pcDeviceId", text_of pc.pc_device_id)
                ∷ (codes "pcDeviceName", text_of pc.pc_device_name)
                ∷ (codes "key", text_of pc.key)
                ∷ (codes "iv", text_of pc.iv)
                ∷ (codes "accountOpenId", text_of pc.account_open_id)
                ∷ (codes "accountName", text_of pc.account_name)
                ∷ (codes "connectType", text_of pc.connect_type)
                ∷ []),
          )
          ∷ (
            codes "appInfo",
            json_array (
                json_object (
                  (codes "appName", text_of (codes "vdfs"))
                  ∷ (codes "port", int_of vdfs_port)
                  ∷ (codes "version", int_of 3)
                  ∷ [])
                ∷ json_object (
                    (codes "appName", text_of (codes "anywhere_control"))
                    ∷ (codes "port", int_of relay_port)
                    ∷ (codes "version", int_of 100)
                    ∷ [])
                ∷ json_object (
                    (codes "appName", text_of (codes "super_clipboard"))
                    ∷ (codes "switchEnable", boolean true)
                    ∷ (codes "port", int_of relay_port)
                    ∷ (codes "version", int_of 100)
                    ∷ [])
                ∷ json_object (
                    (codes "appName", text_of (codes "vivo_relay"))
                    ∷ (codes "version", int_of 1)
                    ∷ [])
                ∷ []),
          )
          ∷ []),
    )
    ∷ [])

unfoldable pub ready_value : Value
ready_value = json_object (
    (codes "type", text_of (codes "ready"))
    ∷ (
      codes "data",
      json_object (
          (
            codes "state",
            json_object (
                (codes "relay", boolean true)
                ∷ (codes "vdfsServer", boolean true)
                ∷ (codes "vdfsClient", boolean true)
                ∷ []),
          )
          ∷ []),
    )
    ∷ [])

-- What the two kinds of clipboard content have in common: the item, the mime type and `type`.
abbrev content_value : Bytes → Bytes → Bytes → Value → Bytes → ℕ → ℕ → Value
content_value pc_id device_name nick item mime ts_ms kind = json_object (
    (codes "callingapk", text_of (codes "com.vivo.pcsuite"))
    ∷ (codes "deviceid", text_of pc_id)
    ∷ (codes "devicename", text_of device_name)
    ∷ (codes "devicetype", int_of 64)
    ∷ (codes "flag", text_of [])
    ∷ (codes "items", json_array (item ∷ []))
    ∷ (codes "lable", text_of [])
    ∷ (codes "mimetypes", json_array (text_of mime ∷ []))
    ∷ (codes "nickname", text_of nick)
    ∷ (codes "timestamp", int_of ts_ms)
    ∷ (codes "type", int_of kind)
    ∷ [])

abbrev item_value : Bytes → Bytes → Value
item_value text path = json_object (
    (codes "text", text_of text)
    ∷ (codes "htmltext", text_of [])
    ∷ (codes "path", text_of path)
    ∷ (codes "uri", text_of [])
    ∷ [])

unfoldable pub clip_text_value : Bytes → Bytes → Bytes → Bytes → ℕ → Value
clip_text_value pc_id device_name nick text ts_ms =
    content_value pc_id device_name nick (item_value text []) (codes "text/plain") ts_ms 1

unfoldable pub clip_image_ref_value : Bytes → Bytes → Bytes → Bytes → Bytes → ℕ → Value
clip_image_ref_value pc_id device_name nick path mime ts_ms =
    content_value pc_id device_name nick (item_value [] path) mime ts_ms 4

unfoldable pub announce_value : Bytes → Value
announce_value pc_id =
    json_object ((codes "command", int_of 1) ∷ (codes "deviceId", text_of pc_id) ∷ [])

unfoldable pub request_clipboard_value : Value
request_clipboard_value =
    json_object
      ((codes "command", int_of 5) ∷ (codes "packageName", text_of (codes "clipboard")) ∷ [])

unfoldable pub register_remote_value : Bytes → Value
register_remote_value remote_device = json_object (
    (codes "command", int_of 6)
    ∷ (codes "isOnline", boolean true)
    ∷ (codes "remoteDevice", text_of remote_device)
    ∷ [])

-- `items[0]`
abbrev first_item : Value → Option Value
first_item j = do v ← get j (codes "items"); vs ← as_array v; first vs

-- `mimes.iter().filter_map(|m| m.as_str()).find(|m| m.contains("image"))`
abbrev find_image_mime : List Value → Option Bytes
find_image_mime [] = none
find_image_mime (v ∷ vs) = elim (as_str v) [
  | none ↦ find_image_mime vs
  | some m ↦ if contains m (codes "image") then some m else find_image_mime vs
]

abbrev pub session_from : Value → Option PhoneSession
session_from j = do
  d ← get j (codes "data")
  mdi ← get d (codes "mobileDeviceInfo")
  k ← get mdi (codes "key")
  key ← as_str k
  if is_empty key
      then none
      else some (record {
        phone_key = key;
        phone_iv = str_or (get mdi (codes "iv")) [];
        mobile_device_id = str_or (get mdi (codes "mobileDeviceId")) (codes "52467a");
        mobile_device_name = str_or (get mdi (codes "mobileDeviceName")) (codes "phone");
      })

module _ (s : Serde) where
  unfoldable pub shadow_startup : PcInfo → ℕ → ℕ → Bytes
  shadow_startup pc relay_port vdfs_port =
      shadow_prefix ++ s.to_string (startup_value pc relay_port vdfs_port)

  unfoldable pub shadow_ready : Bytes
  shadow_ready = shadow_prefix ++ s.to_string ready_value

  unfoldable pub parse_shadow_reply : Bytes → Option PhoneSession
  parse_shadow_reply text = do
    rest ← strip_prefix shadow_prefix text
    j ← s.from_str rest
    session_from j

  unfoldable pub clip_text_json : Bytes → Bytes → Bytes → Bytes → ℕ → Bytes
  clip_text_json pc_id device_name nick text ts_ms =
      s.to_string (clip_text_value pc_id device_name nick text ts_ms)

  unfoldable pub clip_text_from_json : Bytes → Option Bytes
  clip_text_from_json text = do
    j ← s.from_str text
    item ← first_item j
    v ← get item (codes "text")
    t ← as_str v
    if is_empty t then none else some t

  unfoldable pub clip_image_ref_json : Bytes → Bytes → Bytes → Bytes → Bytes → ℕ → Bytes
  clip_image_ref_json pc_id device_name nick path mime ts_ms =
      s.to_string (clip_image_ref_value pc_id device_name nick path mime ts_ms)

  unfoldable pub clip_image_from_json : Bytes → Option ImageRef
  clip_image_from_json text = do
    j ← s.from_str text
    item ← first_item j
    v ← get item (codes "path")
    path ← as_str v
    if is_empty path then none else (do
      mimes_value ← get j (codes "mimetypes")
      mimes ← as_array mimes_value
      mime ← find_image_mime mimes
      some (record { path = path; mime = mime }))

  unfoldable pub command_announce : Bytes → Bytes
  command_announce pc_id = s.to_string (announce_value pc_id)

  unfoldable pub command_request_clipboard : Bytes
  command_request_clipboard = s.to_string request_clipboard_value

  -- The `localDevice` text of the phone's `command:1`.
  unfoldable pub command_local_device : Bytes → Option Bytes
  command_local_device text = do
    j ← s.from_str text
    c ← get j (codes "command")
    n ← as_i64 c
    if not (is_equal n (pos 1)) then none else (do
      v ← get j (codes "localDevice")
      ld ← as_str v
      if is_empty ld then none else some ld)

  unfoldable pub command_register_remote : Bytes → Bytes
  command_register_remote remote_device = s.to_string (register_remote_value remote_device)
