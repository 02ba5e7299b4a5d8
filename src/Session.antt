-- ===== src/Session.antt =====
-- crates/pcsuite-core/src/session.rs: `control_task`, the owner of the control WebSocket, and
-- `known_device_id`. A round of the task's loop is what its receive gave, the messages queued by the
-- features, and the instant in milliseconds; a send succeeds as the link does.
pub mod Rounds
pub mod Ending
pub mod Shadow
mod Tests
use pcsuite_rs.Base.{
  ℕ, ◌+◌, ◌-◌, Bool, true, false, not, ◌||◌, ◌&&◌, List, [], ◌∷◌, ◌++◌, Option, none, some, length,
  get_elem?, ltb, leb, ◌==◌, if◌then◌else◌, bytes_eq, is_empty, min,
}
use pcsuite_rs.Base.Wire.{Bytes, codes, starts_with}
use pcsuite_rs.Base.Text.{contains, trim}
use pcsuite_rs.Base.Text.Parts.{to_ascii_lowercase}
use pcsuite_rs.Json.{Serde}
use pcsuite_rs.Clip.{PhoneSession, parse_shadow_reply, shadow_prefix}

pub data DeadReason : Type 0 where
  closed_by_phone link_lost : DeadReason

-- The result of the receive with its timeout of 200 ms.
pub data Got : Type 0 where
  got_text got_ping got_binary : Bytes → Got
  got_close got_other got_error timed_out : Got

pub record Round : Type 0 where
  pub received : Got
  pub queued : List Bytes
  pub now : ℕ

pub data Sent : Type 0 where
  sent_text sent_pong : Bytes → Sent

-- `broadcasts` are the texts that the features were given.
pub record Control : Type 0 where
  pub peer_said_close : Bool
  pub last_shadow : Option Bytes
  pub broadcasts : List Bytes
  pub wire : List Sent
  pub last_ka : ℕ

-- After a part of a round: the loop goes on, it is left, or the task has panicked at a text, which the
-- features do not get; what it had stored by then stays.
pub data Turn : Type 0 where
  goes_on : Control → Turn
  leaves : Control → DeadReason → Turn
  panics : Control → Bytes → Turn

infixl 5 ◌>>=◌
abbrev pub ◌>>=◌ : Turn → (Control → Turn) → Turn
goes_on c >>= f = f c
leaves c r >>= f = leaves c r
panics c t >>= f = panics c t

abbrev pub keepalive : Bytes
keepalive = codes "normal"

-- `s.is_char_boundary(i)`
unfoldable pub is_char_boundary : Bytes → ℕ → Bool
is_char_boundary t i =
    if i == 0
    then true
    else elim (get_elem? t i) [ none ↦ i == length t | some b ↦ ltb b 128 || leb 192 b ]

-- `&t[..t.len().min(500)]`, which the log line of a message about files does: whether it panics.
unfoldable pub head_panics : Bytes → Bool
head_panics t = not (is_char_boundary t (min (length t) 500))

abbrev pub is_file_related : Bytes → Bool
is_file_related t = contains t (codes "FILE") || contains t (codes "TRANS")

-- `t.trim().eq_ignore_ascii_case("close")`
unfoldable pub says_close : Bytes → Bool
says_close t = bytes_eq (to_ascii_lowercase (trim t)) (codes "close")

abbrev pub is_announcement : Serde → Bytes → Bool
is_announcement s t =
    starts_with t shadow_prefix && elim (parse_shadow_reply s t) [ none ↦ false | some sess ↦ true ]

module _ (s : Serde) where
  -- A text: what it says of the end, whether it is kept as the phone's announcement, the log line, and
  -- the features.
  abbrev pub with_text : Bytes → Control → Control
  with_text t c = record c {
    peer_said_close = if says_close t then true else c.peer_said_close;
    last_shadow = if is_announcement s t then some t else c.last_shadow;
  }

  unfoldable pub on_text : Bytes → Control → Turn
  on_text t c =
      if is_file_related t && head_panics t
      then panics (with_text t c) t
      else goes_on (record (with_text t c) { broadcasts = c.broadcasts ++ (t ∷ []) })

  module _ (link_up : ℕ → Bool) where
    -- The link takes the next message or fails.
    abbrev pub send : Sent → Control → Turn
    send m c =
        if link_up (length c.wire)
        then goes_on (record c { wire = c.wire ++ (m ∷ []) })
        else leaves c link_lost

    abbrev pub receive : Got → Control → Turn
    receive (got_text t) c = on_text t c
    receive (got_ping p) c = send (sent_pong p) c
    receive got_close c = leaves c closed_by_phone
    receive (got_binary b) c = goes_on c
    receive got_other c = goes_on c
    receive got_error c = leaves c link_lost
    receive timed_out c = goes_on c

    abbrev pub flush : List Bytes → Control → Turn
    flush [] c = goes_on c
    flush (m ∷ ms) c = send (sent_text m) c >>= flush ms

    abbrev pub keep_alive : ℕ → Control → Turn
    keep_alive now c =
        if leb 3000 (now - c.last_ka)
        then send (sent_text keepalive) c >>= (λ c'. goes_on (record c' { last_ka = now }))
        else goes_on c

    unfoldable pub one_round : Round → Control → Turn
    unfolding on_text
    one_round r c = receive r.received c >>= (λ c'. flush r.queued c' >>= keep_alive r.now)

    -- The loop; it goes on while there are rounds.
    unfoldable pub rounds : List Round → Control → Turn
    rounds [] c = goes_on c
    rounds (r ∷ rs) c = elim (one_round r c) [
      | goes_on c' ↦ rounds rs c'
      | leaves c' why ↦ leaves c' why
      | panics c' t ↦ panics c' t
    ]

    -- The reason that is published when the loop is left.
    abbrev pub reason_of : Control → DeadReason → DeadReason
    reason_of c why = if c.peer_said_close then closed_by_phone else why

    unfoldable pub control_task : List Round → Control → Turn
    control_task rs c = elim (rounds rs c) [
      | goes_on c' ↦ goes_on c'
      | leaves c' why ↦ leaves c' (reason_of c' why)
      | panics c' t ↦ panics c' t
    ]

  unfoldable pub known_device_id : Control → Option Bytes
  known_device_id c = elim c.last_shadow [
    | none ↦ none
    | some t ↦ elim (parse_shadow_reply s t) [
      | none ↦ none
      | some sess ↦ if is_empty sess.mobile_device_id then none else some sess.mobile_device_id
    ]
  ]

abbrev pub new_control : ℕ → Control
new_control now = record {
  peer_said_close = false;
  last_shadow = none;
  broadcasts = [];
  wire = [];
  last_ka = now;
}
