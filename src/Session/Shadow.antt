-- ===== src/Session/Shadow.antt =====
-- The announcement that the control task keeps: crates/pcsuite-core/src/session.rs.
use pcsuite_rs.Base.{◌≡◌, List, ◌∷◌, ◌++◌, Option, none, some, All}
use pcsuite_rs.Base.Wire.{Bytes}
use pcsuite_rs.Json.{Serde}
use pcsuite_rs.Clip.{PhoneSession, parse_shadow_reply}
use pcsuite_rs.Session.{Control}

module _ (s : Serde) where
  -- A genuine announcement carries the phone's session; an echo of this computer's messages does not.
  abbrev pub Carries : Bytes → Type 0
  Carries t = (sess : PhoneSession) × (parse_shadow_reply s t ≡ some sess)

  abbrev pub CarriesNone : Bytes → Type 0
  CarriesNone t = parse_shadow_reply s t ≡ none

  -- The last text that carries a session, if any does.
  pub data IsLatest : Option Bytes → List Bytes → Type 0 where
    none_yet : (ts : List Bytes) → All CarriesNone ts → IsLatest none ts
    latest :
        (before : List Bytes) (t : Bytes) (after : List Bytes)
        → Carries t
        → All CarriesNone after
        → IsLatest (some t) (before ++ (t ∷ after))

  abbrev pub KeepsLatest : Control → Type 0
  KeepsLatest c = IsLatest c.last_shadow c.broadcasts
