-- ===== src/Device.antt =====
-- crates/pcsuite-core/src/device.rs: what the phone says of itself, and the body that a connecting
-- computer sends.
use pcsuite_rs.Base.{
  ℕ, ◌≡◌, refl, Bool, true, false, not, ◌&&◌, ◌||◌, [], ◌∷◌, some, length, map, ◌==◌, is_empty,
  if◌then◌else◌,
}
use pcsuite_rs.Base.Wire.{Bytes, codes}
use pcsuite_rs.Base.Int.{ℤ, pos}
use pcsuite_rs.Base.Maybe.{◌>>=◌, or_else}
use pcsuite_rs.Base.Text.{in_range, lower}
use pcsuite_rs.Json.{
  Value, boolean, string, json_object, get, as_str, as_i64, as_u64, as_bool, as_object,
}

pub record DeviceInfo : Type 0 where
  pub total_storage_gb : Bytes
  pub available_storage_gb : Bytes
  pub available_bytes : ℕ
  pub mobile_brand : Bytes
  pub mobile_device_name : Bytes
  pub product : Bytes
  pub android_version : Bytes
  pub os_version : Bytes
  pub width_pixels : ℤ
  pub height_pixels : ℤ
  pub fold_screen : Bool
  pub vivo_account : Bytes
  pub open_id : Bytes

abbrev text_at : Value → Bytes → Bytes
text_at d k = or_else (do v ← get d k; as_str v) []

abbrev int_at : Value → Bytes → ℤ
int_at d k = or_else (do v ← get d k; as_i64 v) (pos 0)

-- The envelope's data if it is an object, and else the reply itself.
abbrev pub unwrapped : Value → Value
unwrapped reply = or_else (do v ← get reply (codes "data"); ms ← as_object v; some v) reply

unfoldable pub parse_base_info : Value → DeviceInfo
parse_base_info reply =
    let d = unwrapped reply in
    record {
      total_storage_gb = text_at d (codes "totalStorage");
      available_storage_gb = text_at d (codes "availableStorage");
      available_bytes = or_else (do v ← get d (codes "availableByte"); as_u64 v) 0;
      mobile_brand = text_at d (codes "mobileBrand");
      mobile_device_name = text_at d (codes "mobileDeviceName");
      product = text_at d (codes "product");
      android_version = text_at d (codes "androidVersion");
      os_version = text_at d (codes "osVersion");
      width_pixels = int_at d (codes "widthPixels");
      height_pixels = int_at d (codes "heightPixels");
      fold_screen = or_else (do v ← get d (codes "isFoldScreen"); as_bool v) false;
      vivo_account = text_at d (codes "vivoAccount");
      open_id = text_at d (codes "openid");
    }

abbrev is_hex : ℕ → Bool
is_hex b = in_range 48 57 b || in_range 97 102 b || in_range 65 70 b

abbrev all_hex : Bytes → Bool
all_hex [] = true
all_hex (b ∷ bs) = is_hex b && all_hex bs

-- The pairs of digits with colons between them.
abbrev colons : Bytes → Bytes
colons [] = []
colons (a ∷ []) = a ∷ []
colons (a ∷ (b ∷ [])) = a ∷ (b ∷ [])
colons (a ∷ (b ∷ (c ∷ cs))) = a ∷ (b ∷ (b':' ∷ colons (c ∷ cs)))

-- The address of the computer in the form with colons, if it is twelve digits.
unfoldable pub ble_id : Bytes → Bytes
ble_id pc_mac = if length pc_mac == 12 && all_hex pc_mac then colons (map lower pc_mac) else pc_mac

unfoldable pub connect_body : Bytes → Bytes → Bytes → Bytes → Bytes → Value
connect_body device_name token pc_device_id open_id pc_mac = json_object (
    (codes "pc_name", string device_name)
    ∷ (codes "pcDeviceId", string pc_device_id)
    ∷ (codes "isLogin", boolean (not (is_empty open_id)))
    ∷ (codes "openid", string open_id)
    ∷ (codes "pcLoginAccount", string [])
    ∷ (codes "isAutoConnect", boolean false)
    ∷ (codes "pcSystemType", string (codes "2"))
    ∷ (codes "isSupVdfs", boolean true)
    ∷ (codes "token", string token)
    ∷ (codes "isPcOsSupportExtScreen", boolean true)
    ∷ (codes "pcBleId", string (ble_id pc_mac))
    ∷ [])

ble_id_colons : ble_id (codes "A4B1C106BE9E") ≡ codes "a4:b1:c1:06:be:9e"
unfolding ble_id
ble_id_colons = refl
