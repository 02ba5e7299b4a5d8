-- ===== src/Session/Tests.antt =====
-- Runs of the control task, and its theorems at concrete inputs.
use pcsuite_rs.Base.{
  ◌≡◌, ◌↔◌, refl, true, List, [], some, if◌then◌else◌, ◌∷◌, ◌++◌, none, replicate, arith, bytes_eq,
}
use pcsuite_rs.Base.Wire.{Bytes, codes, starts_with}
use pcsuite_rs.Base.Text.{contains, trim, trim_start, trim_start_loop, trim_end, white_prefix}
use pcsuite_rs.Json.{Serde, json_object, string, get}
use pcsuite_rs.Session.{
  Got, got_text, got_error, timed_out, Round, Control, leaves, panics, link_lost, on_text,
  one_round, rounds, control_task, new_control, says_close, is_file_related, sent_text,
}
use pcsuite_rs.Session.Ending.{IsClosed, IsCutBadly, control_task-IsClosed, on_text-panics}
use pcsuite_rs.Clip.{parse_shadow_reply}
use pcsuite_rs.Base.Text.{strip_prefix}

abbrev no_json : Serde
no_json = record { from_str = λ bs. none; to_string = λ v. [] }

close_said : says_close (codes " Close\n") ≡ true
unfolding says_close trim trim_start trim_start_loop trim_end white_prefix bytes_eq
close_said = refl

abbrev round_of : Got → Round
round_of g = record { received = g; queued = codes "x" ∷ []; now = 0 }

-- An error ends a session as lost, a queued message goes out before that.
lost :
    control_task no_json (λ n. true) (round_of timed_out ∷ round_of got_error ∷ []) (new_control 0)
    ≡ leaves (record (new_control 0) { wire = sent_text (codes "x") ∷ [] }) link_lost
unfolding control_task rounds one_round
lost = refl

-- The phone says close, and the link fails in a later round.
control_task-IsClosed_example : IsClosed (
    control_task no_json
      (λ n. true)
      ((round_of timed_out ∷ [])
        ++ (round_of (got_text (codes " Close\n")) ∷ (round_of got_error ∷ [])))
      (new_control 0))
unfolding trim trim_start trim_start_loop trim_end white_prefix rounds one_round
control_task-IsClosed_example =
    control_task-IsClosed no_json (λ n. true) (round_of timed_out ∷ []) (round_of got_error ∷ [])
      (round_of (got_text (codes " Close\n"))) (codes " Close\n") (new_control 0)
      (record (new_control 0) { wire = sent_text (codes "x") ∷ [] }) refl refl refl

-- A parser that reads the object of a session from "{}" and nothing else.
abbrev one_session : Serde
one_session = record {
  from_str = λ bs.
      if bytes_eq bs (codes "{}")
      then some (
          json_object (
            (
              codes "data",
              json_object (
                  (codes "mobileDeviceInfo", json_object ((codes "key", string (codes "k")) ∷ []))
                  ∷ []),
            )
            ∷ []))
      else none;
  to_string = λ v. [];
}

-- An announcement, an echo that carries no session, and the end of the link.
abbrev two_texts : List Round
two_texts =
    round_of (got_text (codes "SHADOW_LIKE:{}"))
    ∷ round_of (got_text (codes "SHADOW_LIKE:x"))
    ∷ round_of got_error
    ∷ []

-- The announcement is kept, and the echo behind it is not.
announcement_kept :
    rounds one_session (λ n. true) two_texts (new_control 0)
    ≡ leaves
        (record (new_control 0) {
          last_shadow = some (codes "SHADOW_LIKE:{}");
          broadcasts = codes "SHADOW_LIKE:{}" ∷ codes "SHADOW_LIKE:x" ∷ [];
          wire = sent_text (codes "x") ∷ sent_text (codes "x") ∷ [];
        })
        link_lost
unfolding rounds one_round on_text says_close trim trim_start trim_start_loop trim_end white_prefix
    bytes_eq parse_shadow_reply strip_prefix contains starts_with get
announcement_kept = refl

-- An announcement of a file whose name has a three-byte character behind its 499th byte.
abbrev long_name : Bytes
long_name = codes "FILE_TRANS_TAG:" ++ (replicate 484 97 ++ (0xe4 ∷ 0xb8 ∷ 0x96 ∷ []))

on_text-panics_example :
    ((after : Control) × (on_text no_json long_name (new_control 0) ≡ panics after long_name))
    ↔ ((is_file_related long_name ≡ true) × IsCutBadly long_name)
on_text-panics_example = on_text-panics no_json long_name (new_control 0)

it_panics : (after : Control) × (on_text no_json long_name (new_control 0) ≡ panics after long_name)
unfolding contains starts_with
it_panics =
    (on_text-panics no_json long_name (new_control 0)).1
      (refl, record { long = omega arith; byte = 0xb8; there = refl; continues = omega arith })
