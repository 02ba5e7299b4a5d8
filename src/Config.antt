-- ===== src/Config.antt =====
-- crates/pcsuite-core/src/config.rs: the identity of this computer, from the environment, a JSON file and
-- what the frontend has set. `std::env::var` is a function, and the file's value an argument.
pub mod Seeds
mod Tests
use pcsuite_rs.Base.{
  ℕ, Bool, true, false, not, ◌||◌, ◌&&◌, List, [], ◌∷◌, Option, none, some, if◌then◌else◌, is_empty,
  bytes_eq,
}
use pcsuite_rs.Base.Wire.{Bytes, codes}
use pcsuite_rs.Base.Maybe.{◌>>=◌, or_else}
use pcsuite_rs.Base.Text.{trim}
use pcsuite_rs.Base.Text.Parts.{to_ascii_lowercase}
use pcsuite_rs.Json.{
  Value, null, string, object, get, as_str, as_object, Serde, insert_member, no_members, Members,
}
use pcsuite_rs.FileTrans.{or_try, unless_empty}
use pcsuite_rs.Share.Connect.{PcIdentity, frame_id_default}

abbrev pub service_id : Bytes
service_id = codes "com.vivo.pcsuite.SERVICE"

abbrev pub clip_pc_id_default : Bytes
clip_pc_id_default = codes "pc0000"

abbrev pub open_id_placeholder : Bytes
open_id_placeholder = codes "0000000000000000"

abbrev pub pc_mac_placeholder : Bytes
pc_mac_placeholder = codes "000000000000"

pub data Mode : Type 0 where
  serverless vivo_account : Mode

abbrev is_one_of : Bytes → List Bytes → Bool
is_one_of s [] = false
is_one_of s (t ∷ ts) = bytes_eq s t || is_one_of s ts

unfoldable pub mode_parse : Bytes → Mode
mode_parse s =
    if is_one_of (to_ascii_lowercase (trim s)) (
      codes "vivo"
      ∷ codes "vivo_account"
      ∷ codes "vivoaccount"
      ∷ codes "account"
      ∷ codes "cloud"
      ∷ [])
    then vivo_account
    else serverless

abbrev pub mode_as_str : Mode → Bytes
mode_as_str serverless = codes "serverless"
mode_as_str vivo_account = codes "vivo_account"

abbrev pub uses_cloud : Mode → Bool
uses_cloud serverless = false
uses_cloud vivo_account = true

-- A map from addresses to seeds.
abbrev pub Seeds : Type 0
Seeds = List (Bytes × Bytes)

abbrev pub seed_at : Seeds → Bytes → Option Bytes
seed_at [] ip = none
seed_at ((k, v) ∷ kvs) ip = let later = seed_at kvs ip in if bytes_eq k ip then some v else later

abbrev pub remove_seed : Bytes → Seeds → Seeds
remove_seed ip [] = []
remove_seed ip ((k, v) ∷ kvs) =
    let rest = remove_seed ip kvs in if bytes_eq k ip then rest else (k, v) ∷ rest

pub record UserConfig : Type 0 where
  pub open_id : Bytes
  pub pc_mac : Bytes
  pub account : Bytes
  pub device_name : Bytes
  pub clip_pc_id : Bytes
  pub default_seed : Option Bytes
  pub seeds : Seeds
  pub mode : Mode

-- The texts among an object's members.
abbrev texts_of : List (Bytes × Value) → Seeds
texts_of [] = []
texts_of ((k, v) ∷ kvs) = elim (as_str v) [ some s ↦ (k, s) ∷ texts_of kvs | none ↦ texts_of kvs ]

module _ (env : Bytes → Option Bytes) (file : Value) (hostname : Option Bytes) where
  abbrev pub file_str : Bytes → Option Bytes
  file_str key = do v ← get file key; as_str v

  -- The environment wins over the file, the file over the default.
  abbrev pub pick : Bytes → Bytes → Bytes → Bytes
  pick env_key json_key default_ = or_else (or_try (env env_key) (file_str json_key)) default_

  unfoldable pub load : UserConfig
  load = record {
    open_id = pick (codes "PCSUITE_OPEN_ID") (codes "open_id") open_id_placeholder;
    pc_mac = pick (codes "PCSUITE_PC_MAC") (codes "pc_mac") pc_mac_placeholder;
    account = pick (codes "PCSUITE_ACCOUNT") (codes "account") [];
    device_name =
        pick (codes "PCSUITE_DEVICE_NAME") (codes "device_name")
          (or_else hostname (codes "pcsuite"));
    clip_pc_id = pick (codes "PCSUITE_CLIP_PC_ID") (codes "clip_pc_id") clip_pc_id_default;
    default_seed = or_try (env (codes "PCSUITE_SEED")) (file_str (codes "seed"));
    seeds = or_else (do v ← get file (codes "seeds"); kvs ← as_object v; some (texts_of kvs)) [];
    mode = mode_parse (pick (codes "PCSUITE_MODE") (codes "mode") (mode_as_str serverless));
  }

-- What the frontend has set.
pub record Overrides : Type 0 where
  pub open_id : Option Bytes
  pub pc_mac : Option Bytes
  pub account : Option Bytes
  pub device_name : Option Bytes
  pub clip_pc_id : Option Bytes
  pub seeds : Seeds
  pub mode : Option Mode

abbrev pub no_overrides : Overrides
no_overrides = record {
  open_id = none;
  pc_mac = none;
  account = none;
  device_name = none;
  clip_pc_id = none;
  seeds = [];
  mode = none;
}

unfoldable pub set_identity : Bytes → Bytes → Bytes → Bytes → Overrides → Overrides
set_identity open_id pc_mac account device_name o = record o {
  open_id = unless_empty open_id;
  pc_mac = unless_empty pc_mac;
  account = unless_empty account;
  device_name = unless_empty device_name;
}

unfoldable pub set_clip_pc_id : Bytes → Overrides → Overrides
set_clip_pc_id id o = record o { clip_pc_id = unless_empty id }

unfoldable pub set_mode : Mode → Overrides → Overrides
set_mode m o = record o { mode = some m }

unfoldable pub set_open_id : Bytes → Overrides → Overrides
set_open_id id o = record o { open_id = unless_empty id }

unfoldable pub set_seed : Bytes → Bytes → Overrides → Overrides
set_seed ip seed o = record o {
  seeds = if is_empty seed then remove_seed ip o.seeds else (ip, seed) ∷ remove_seed ip o.seeds;
}

unfoldable pub mode : UserConfig → Overrides → Mode
mode c o = or_else o.mode c.mode

unfoldable pub clip_pc_id : UserConfig → Overrides → Bytes
clip_pc_id c o = or_else o.clip_pc_id c.clip_pc_id

unfoldable pub default_identity : UserConfig → Overrides → PcIdentity
default_identity c o = record {
  open_id = or_else o.open_id c.open_id;
  pc_mac = or_else o.pc_mac c.pc_mac;
  account = or_else o.account c.account;
  device_name = or_else o.device_name c.device_name;
  service_id = service_id;
  frame_id = frame_id_default;
}

unfoldable pub default_stored_seed : UserConfig → Overrides → Bytes → Option Bytes
default_stored_seed c o ip =
    or_try (seed_at o.seeds ip) (or_try (seed_at c.seeds ip) c.default_seed)

unfoldable pub has_open_id : UserConfig → Overrides → Bool
has_open_id c o =
    let id = (default_identity c o).open_id in
    not (is_empty id) && not (bytes_eq id open_id_placeholder)

unfoldable pub is_pc_mac_placeholder : Bytes → Bool
is_pc_mac_placeholder mac = is_empty mac || bytes_eq mac pc_mac_placeholder

-- The object that `persist_pc_mac` writes, from the text that the file has.
abbrev members_of : Value → Members
members_of (object ms) = ms
members_of _ = no_members

unfoldable pub persisted : Serde → Option Bytes → Bytes → Value
persisted s text mac =
    let old = or_else (do t ← text; s.from_str t) null in
    object (insert_member (codes "pc_mac") (string mac) (members_of old))
