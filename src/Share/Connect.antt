-- ===== src/Share/Connect.antt =====
-- crates/pcsuite-core/src/share.rs: `read_first_frame` and `handle_conn`. What the socket, the session
-- over the WebSocket and the send of the answer give are arguments.
pub mod Framing
use pcsuite_rs.Base.{
  ℕ, Bool, true, false, not, List, [], ◌∷◌, ◌++◌, Option, none, some, ltb, length, is_empty,
  bytes_eq, if◌then◌else◌,
}
use pcsuite_rs.Base.Wire.{Bytes, codes}
use pcsuite_rs.Base.Int.{ℤ, pos, negsuc}
use pcsuite_rs.Base.Maybe.{◌>>=◌, or_else}
use pcsuite_rs.Base.Result.{Result, done, bail}
use pcsuite_rs.Base.Streams.{Read, got, failed}
use pcsuite_rs.Frames.Payload.{encode, decode_strict, decoded, need_more, bad_magic}
use pcsuite_rs.Json.{
  Value, number, string, pos_int, neg_int, json_object, json_array, get, as_str, as_i64, Serde,
}
use pcsuite_rs.FileTrans.Receiver.{FileTransEvent, finished, aborted}
use pcsuite_rs.Share.{share_service_id, max_frame_buf, parse_extra_port, default_share_port}

-- The frame at the front of the buffer, or why the reading stops; `none` to read on.
unfoldable pub try_frame : Bytes → Option (Result Bytes)
try_frame buf = elim (decode_strict buf) [
  | decoded body used ↦ some (done body)
  | bad_magic ↦ some (bail "frame magic mismatch")
  | need_more ↦ if ltb max_frame_buf (length buf) then some (bail "connect frame exceeds") else none
]

unfoldable pub read_frame_loop : Bytes → List Read → Result Bytes
read_frame_loop buf [] = or_else (try_frame buf) (bail "timeout waiting for connect frame")
read_frame_loop buf (failed ∷ reads) = or_else (try_frame buf) (bail "read connect frame")
read_frame_loop buf (got c ∷ reads) =
    let rest = read_frame_loop (buf ++ c) reads in
    or_else (try_frame buf) (if is_empty c then bail "peer closed before connect frame" else rest)

unfoldable pub read_first_frame : List Read → Result Bytes
read_first_frame reads = read_frame_loop [] reads

pub record PcIdentity : Type 0 where
  pub open_id : Bytes
  pub pc_mac : Bytes
  pub account : Bytes
  pub device_name : Bytes
  pub service_id : Bytes
  pub frame_id : ℤ

abbrev pub frame_id_default : ℤ
frame_id_default = pos 87654321

abbrev pub int_value : ℤ → Value
int_value (pos n) = number (pos_int n)
int_value (negsuc n) = number (neg_int n)

abbrev pub str_at : Value → Bytes → Option Bytes
str_at v key = do x ← get v key; as_str x

abbrev pub int_at : Value → Bytes → Option ℤ
int_at v key = do x ← get v key; as_i64 x

-- The answer, `bytes:[1]` in a shell that mirrors the request.
unfoldable pub accept_value : PcIdentity → ℤ → Value
accept_value id frame_id = json_object (
    (codes "channel", number (pos_int 0))
    ∷ (codes "id", int_value frame_id)
    ∷ (codes "open_Id", string id.open_id)
    ∷ (codes "target_id", string id.pc_mac)
    ∷ (codes "account", string id.account)
    ∷ (codes "type", number (pos_int 1))
    ∷ (codes "service_id", string share_service_id)
    ∷ (codes "bytes", json_array (number (pos_int 1) ∷ []))
    ∷ (codes "deviceName", string id.device_name)
    ∷ [])

pub data Act : Type 0 where
  answer : Bytes → Act
  report : FileTransEvent → Act

module _ (s : Serde) (id : PcIdentity) (save_dir : Bytes) where
  -- The phone's port, as the log line gives it: the session has its own.
  unfoldable pub named_port : Value → ℕ
  named_port v = elim (str_at v (codes "extra_info")) [
    | none ↦ default_share_port
    | some extra ↦ parse_extra_port extra
  ]

  abbrev accept_frame : Value → Bytes
  accept_frame v =
      encode (s.to_string (accept_value id (or_else (int_at v (codes "id")) frame_id_default)))

  -- The name behind is 手机, a phone.
  abbrev device_name_of : Value → Bytes
  device_name_of v =
      or_else (str_at v (codes "deviceName")) (0xe6 ∷ 0x89 ∷ 0x8b ∷ 0xe6 ∷ 0x9c ∷ 0xba ∷ [])

  -- A connection behind the start of its session: what it does, and whether it fails. The session's
  -- result is waited for before the answer goes out; a connection without a session is answered at
  -- once.
  unfoldable pub handle_conn :
      Bool → Result Bytes → Result (Result (List Bytes)) → Bool → List Act × Bool
  handle_conn run_session frame outcome can_send = elim frame [
    | bail e ↦ ([], false)
    | done body ↦ elim (s.from_str body) [
      | none ↦ ([], false)
      | some v ↦
          if not (bytes_eq (or_else (str_at v (codes "service_id")) []) share_service_id)
          then ([], false)
          else if not run_session
          then if can_send then (answer (accept_frame v) ∷ [], true) else ([], false)
          else elim outcome [
            | bail e ↦ ([], false)
            | done result ↦ if not can_send then ([], false) else (
              answer (accept_frame v)
                  ∷ report (elim result [
                    | done saved ↦ finished saved save_dir
                    | bail e ↦ aborted (device_name_of v ∷ [])
                  ])
                  ∷ [],
              true,
            )
          ]
    ]
  ]
