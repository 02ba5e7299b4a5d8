-- ===== src/Notices/Shown.antt =====
-- What reaches the frontend is never blank: crates/pcsuite-proto/src/notify.rs and
-- crates/pcsuite-proto/src/verify.rs.
use pcsuite_rs.Base.{
  ◌≡◌, false, List, [], ◌∷◌, Option, none, some, All, Bool-cases, Option-cases, inl, inr,
}
use pcsuite_rs.Base.Wire.{Bytes, codes}
use pcsuite_rs.Base.Text.{contains}
use pcsuite_rs.Base.Text.Parts.{from_first}
use pcsuite_rs.Json.{Serde}
use pcsuite_rs.Notices.{
  Notification, is_blank, unless_blank, notification_of, parse_content, parse, notify_feature,
}

abbrev pub IsShown : Notification → Type 0
IsShown n = is_blank n ≡ false

-- A message that gives a notification gives one that is not blank.
abbrev IsGood : Option Notification → Type 0
IsGood none = Unit
IsGood (some n) = IsShown n

unless_blank-IsGood : (n : Notification) → IsGood (unless_blank n)
unless_blank-IsGood n = elim (Bool-cases (is_blank n)) [ inl b ↦ rw b tt | inr b ↦ rw b b ]

module _ (s : Serde) where
  parse_content-IsGood : (text : Bytes) → IsGood (parse_content s text)
  unfolding parse_content
  parse_content-IsGood text = elim (Option-cases (from_first (codes "{") text)) [
    | inl e ↦ rw (parse_content, e) tt
    | inr (body, e) ↦ elim (Option-cases (s.from_str body)) [
      | inl e' ↦ rw (parse_content, e, e') tt
      | inr (j, e') ↦ rw (parse_content, e, e') (unless_blank-IsGood (notification_of j))
    ]
  ]

  -- Whatever texts come over the control channel, no notification without a package, an application,
  -- a title and a content is given to the frontend.
  pub notify_feature-IsShown : (texts : List Bytes) → All IsShown (notify_feature s texts)
  unfolding notify_feature parse
  notify_feature-IsShown [] = tt
  notify_feature-IsShown (t ∷ ts) = elim (Bool-cases (contains t (codes "RECEIVED_NOTIFICATION"))) [
    | inl r ↦ elim (Option-cases (parse_content s t)) [
      | inl e ↦ rw (notify_feature, parse, r, e) (notify_feature-IsShown ts)
      | inr (n, e) ↦
          let shown : IsShown n = rw e at (parse_content-IsGood t) in
          rw (notify_feature, parse, r, e) (shown, notify_feature-IsShown ts)
    ]
    | inr nr ↦ elim (Bool-cases (contains t (codes "REMOVE_NOTIFICATION"))) [
      | inl r ↦ rw (notify_feature, parse, nr, r) (notify_feature-IsShown ts)
      | inr no_ ↦ rw (notify_feature, parse, nr, no_) (notify_feature-IsShown ts)
    ]
  ]
