-- ===== src/Share/Pull.antt =====
-- crates/pcsuite-core/src/share.rs: `pull_batch`, the exchange with the phone over the WebSocket. What
-- its `select!` gives in each round is an event; the sockets and the download are arguments.
pub mod Outcome
pub mod Acks
use pcsuite_rs.Base.{
  ℕ, Bool, true, false, List, [], ◌∷◌, ◌++◌, Option, none, some, length, if◌then◌else◌, bytes_eq,
}
use pcsuite_rs.Base.Wire.{Bytes, codes}
use pcsuite_rs.Base.Maybe.{◌>>=◌}
use pcsuite_rs.Base.Result.{Result, done, bail}
use pcsuite_rs.Json.{get, as_str, Serde}
use pcsuite_rs.FileTrans.Receiver.{FileTransEvent, started}
use pcsuite_rs.Share.{parse_action}

-- A frame, a failed read, a timeout, or the end of the running download.
pub data Event : Type 0 where
  text ping : Bytes → Event
  close other read_failed timed_out download_ended : Event

pub data Sent : Type 0 where
  said pong : Bytes → Sent

-- `pending_task` stands for `download` too: both are set together. `committed` is read by the accept
-- loop.
pub record Pull : Type 0 where
  pub wire : List Sent
  pub reports : List FileTransEvent
  pub pending_task : Option Bytes
  pub committed : Bool

-- After a round: the loop goes on or returns.
pub data Turn : Type 0 where
  goes_on : Pull → Turn
  returns : Pull → Result (List Bytes) → Turn

abbrev pub negotiation_ack : Bytes → Bytes
negotiation_ack mid =
    codes "ack:"
    ++ (mid
        ++ codes ":versionNegotiation?{\"version\":1,\"threadLimit\":5,\"device_avatar_uri\":\"\"}")

abbrev pub request_ack : Bytes → Bytes
request_ack mid = codes "ack:" ++ (mid ++ codes ":sendRequest?{\"versions\":[1]}")

abbrev pub blind_ack : Bytes → Bytes → Bytes
blind_ack mid action = codes "ack:" ++ (mid ++ (codes ":" ++ action))

abbrev pub is_done {ℓ} : {A : Type ℓ} → Result A → Bool
is_done (done a) = true
is_done (bail e) = false

-- The final report of a task.
unfoldable pub final_status : Bytes → Result (List Bytes) → Bytes
final_status task_id result =
    codes "action:2:status?{\"taskId\":\""
    ++ (task_id
        ++ (codes "\",\"type\":\""
            ++ ((if is_done result then codes "1" else codes "2") ++ codes "\"}")))

abbrev pub no_task : Result (List Bytes)
no_task = bail "WS closed before the phone announced a task"

module _ (s : Serde) (link_up : ℕ → Bool) (download : Bytes → Result (List Bytes)) where
  -- A send whose failure is not looked at.
  abbrev pub try_send : Sent → Pull → Pull
  try_send m p = if link_up (length p.wire) then record p { wire = p.wire ++ (m ∷ []) } else p

  -- A send whose failure ends the exchange.
  abbrev pub send_or_fail : Sent → Pull → Turn
  send_or_fail m p =
      if link_up (length p.wire)
      then goes_on (record p { wire = p.wire ++ (m ∷ []) })
      else returns p (bail "send ack")

  -- The ack of a task went out: the download starts.
  abbrev pub start_task : Bytes → Turn → Turn
  start_task task_id (goes_on p) =
      goes_on (record p { committed = true; pending_task = some task_id })
  start_task task_id (returns p r) = returns p r

  unfoldable pub on_request : Bytes → Bytes → Pull → Turn
  on_request mid extra p = elim (s.from_str extra) [
    | none ↦ returns p (bail "sendRequest payload was not JSON")
    | some info ↦ elim (do v ← get info (codes "id"); as_str v) [
      | none ↦ returns p (bail "sendRequest carried no task id")
      | some task_id ↦ start_task task_id (
          send_or_fail (said (request_ack mid))
            (record p { reports = p.reports ++ (started [] ∷ []) }))
    ]
  ]

  unfoldable pub on_action : Bytes → Bytes → Bytes → Pull → Turn
  on_action mid action extra p =
      if bytes_eq action (codes "versionNegotiation")
      then send_or_fail (said (negotiation_ack mid)) p
      else if bytes_eq action (codes "sendRequest")
      then on_request mid extra p
      else goes_on (try_send (said (blind_ack mid action)) p)

  -- A download that runs is waited for when the socket is gone.
  abbrev pub kept_result : Option Bytes → Result (List Bytes) → Result (List Bytes)
  kept_result none without = without
  kept_result (some task_id) without = download task_id

  abbrev pub keep_download : Pull → Result (List Bytes) → Turn
  keep_download p without = returns p (kept_result p.pending_task without)

  unfoldable pub on_event : Event → Pull → Turn
  on_event (text t) p = elim (parse_action t) [
    | none ↦ goes_on p
    | some (mid, action, extra) ↦ on_action mid action extra p
  ]
  on_event (ping b) p = goes_on (try_send (pong b) p)
  on_event close p = keep_download p no_task
  on_event other p = goes_on p
  on_event read_failed p = keep_download p (bail "WS read failed")
  on_event timed_out p = returns p (bail "timed out waiting for a WS frame")
  on_event download_ended p = elim p.pending_task [
    | none ↦ goes_on p
    | some task_id ↦
        returns
          (record (try_send (said (final_status task_id (download task_id))) p) {
            pending_task = none;
          })
          (download task_id)
  ]

  unfoldable pub pull_loop : List Event → Pull → Turn
  pull_loop [] p = goes_on p
  pull_loop (e ∷ es) p = elim (on_event e p) [
    | goes_on p' ↦ pull_loop es p'
    | returns p' r ↦ returns p' r
  ]

abbrev pub new_pull : Pull
new_pull = record { wire = []; reports = []; pending_task = none; committed = false }

module _ (s : Serde) (link_up : ℕ → Bool) (download : Bytes → Result (List Bytes)) where
  unfoldable pub pull_batch : Bool → List Event → Turn
  pull_batch can_mkdir es =
      if can_mkdir
      then pull_loop s link_up download es new_pull
      else returns new_pull (bail "mkdir")
