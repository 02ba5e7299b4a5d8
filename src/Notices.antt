-- ===== src/Notices.antt =====
-- crates/pcsuite-proto/src/notify.rs and crates/pcsuite-proto/src/verify.rs: the phone's notifications and
-- codes of text messages, and what crates/pcsuite-core/src/notify.rs and crates/pcsuite-core/src/verify.rs
-- do with the texts of the control channel.
pub mod Shown
use pcsuite_rs.Base.{
  ℕ, Bool, true, false, not, ◌&&◌, ◌≡◌, refl, List, [], ◌∷◌, ◌++◌, Option, none, some, All,
  is_empty, if◌then◌else◌, Bool-cases, Option-cases, inl, inr,
}
use pcsuite_rs.Base.Wire.{Bytes, codes}
use pcsuite_rs.Base.Int.{ℤ, pos, parse_i64, show_i64}
use pcsuite_rs.Base.Maybe.{◌>>=◌, or_else}
use pcsuite_rs.Base.Text.{contains}
use pcsuite_rs.Base.Text.Parts.{from_first}
use pcsuite_rs.Json.{Value, boolean, string, json_object, get, as_str, as_i64, as_bool, Serde}
use pcsuite_rs.FileTrans.{or_try}

pub record Notification : Type 0 where
  pub package_name : Bytes
  pub app_name : Bytes
  pub title : Bytes
  pub content : Bytes
  pub pending_intent_id : ℤ
  pub is_clone_app : Bool
  pub unread_count : ℤ

pub data NotifyMsg : Type 0 where
  posted : Notification → NotifyMsg
  removed : Option Notification → NotifyMsg

abbrev text_at : Value → Bytes → Bytes
text_at j k = or_else (do v ← get j k; as_str v) []

-- An integer, or its text.
abbrev int_at : Value → Bytes → ℤ
int_at j k = or_else (do v ← get j k; or_try (as_i64 v) (do s ← as_str v; parse_i64 s)) (pos 0)

abbrev pub is_blank : Notification → Bool
is_blank n =
    is_empty n.package_name && is_empty n.app_name && is_empty n.title && is_empty n.content

unfoldable pub notification_of : Value → Notification
notification_of j = record {
  package_name = text_at j (codes "packageName");
  app_name = text_at j (codes "appName");
  title = text_at j (codes "title");
  content = text_at j (codes "content");
  pending_intent_id = int_at j (codes "pendingIntentId");
  is_clone_app = or_else (do v ← get j (codes "isCloneApp"); as_bool v) false;
  unread_count = int_at j (codes "unReadCount");
}

abbrev unless_blank : Notification → Option Notification
unless_blank n = if is_blank n then none else some n

abbrev pub click_prefix : Bytes
click_prefix = codes "PC_CLICK_NOTIFICATION:"

unfoldable pub click : ℤ → Bytes
click pending_intent_id = click_prefix ++ show_i64 pending_intent_id

-- What the two features declare.
unfoldable pub config_value : Value
config_value = json_object (
    (codes "update_place", string (codes "all"))
    ∷ (codes "call", boolean false)
    ∷ (codes "notify", boolean true)
    ∷ (codes "brower", boolean false)
    ∷ (codes "picture", boolean true)
    ∷ (codes "note_relay", boolean true)
    ∷ (codes "phoneCall", boolean true)
    ∷ (codes "verifyCode", boolean true)
    ∷ (codes "notifyOn", boolean true)
    ∷ (codes "clipboard_switch", boolean true)
    ∷ [])

pub record SmsCode : Type 0 where
  pub code : Bytes
  pub sign : Bytes

-- The text of the first of two keys that is there.
abbrev either_text : Value → Bytes → Bytes → Bytes
either_text j k k' = or_else (do v ← or_try (get j k) (get j k'); as_str v) []

module _ (s : Serde) where
  unfoldable pub pc_config : Bytes
  pc_config = codes "PC_CONFIG:" ++ s.to_string config_value

  unfoldable pub parse_content : Bytes → Option Notification
  parse_content text = do
    body ← from_first (codes "{") text
    j ← s.from_str body
    unless_blank (notification_of j)

  unfoldable pub parse : Bytes → Option NotifyMsg
  parse text =
      if contains text (codes "RECEIVED_NOTIFICATION")
      then (do n ← parse_content text; some (posted n))
      else if contains text (codes "REMOVE_NOTIFICATION")
      then some (removed (parse_content text))
      else none

  unfoldable pub parse_sms_code : Bytes → Option SmsCode
  parse_sms_code text = do
    body ←
        (if contains text (codes "NOTIFY_RECEIVED_SMS_CODE")
          then from_first (codes "{") text
          else none)
    j ← s.from_str body
    let code = either_text j (codes "smsCode") (codes "code")
    if is_empty code
        then none
        else some (record { code = code; sign = either_text j (codes "smsSign") (codes "sign") })

  -- The notifications that the frontend is given.
  unfoldable pub notify_feature : List Bytes → List Notification
  notify_feature [] = []
  notify_feature (t ∷ ts) = elim (parse t) [
    | some (posted n) ↦ n ∷ notify_feature ts
    | some (removed n) ↦ notify_feature ts
    | none ↦ notify_feature ts
  ]

  -- The codes that the frontend is given.
  unfoldable pub verify_feature : List Bytes → List SmsCode
  verify_feature [] = []
  verify_feature (t ∷ ts) = elim (parse_sms_code t) [
    | some sms ↦ sms ∷ verify_feature ts
    | none ↦ verify_feature ts
  ]
