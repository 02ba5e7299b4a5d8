-- ===== src/Pair.antt =====
-- crates/pcsuite-core/src/pair.rs: the address behind the QR code, and the listener that the phone
-- calls after it has scanned it. Connections come as events; the listener's clock is theirs.
pub mod Encoding
pub mod Query
mod Tests
use pcsuite_rs.Base.{
  ℕ, suc, ◌+◌, ◌-◌, ◌*◌, ◌/◌, ◌%◌, Bool, true, false, not, ◌&&◌, ◌||◌, List, [], ◌∷◌, ◌++◌, Option,
  none, some, ltb, leb, length, ◌==◌, if◌then◌else◌, is_empty, bytes_eq, get_elem?,
}
use pcsuite_rs.Base.Wire.{Bytes, codes, position_of}
use pcsuite_rs.Base.Maybe.{◌>>=◌, or_else}
use pcsuite_rs.Base.Result.{Result, done, bail}
use pcsuite_rs.Base.Streams.{Read, got, failed}
use pcsuite_rs.Base.Text.{split, split_once, split_whitespace, lines, in_range}
use pcsuite_rs.Base.Utf8.{from_utf8_lossy}
use pcsuite_rs.Share.Connect.{PcIdentity}

abbrev pub gateway : Bytes
gateway = codes "https://psuite.vivo.com.cn/vbusiness"

abbrev pub is_unreserved : ℕ → Bool
is_unreserved c =
    in_range 48 57 c
    || in_range 65 90 c
    || in_range 97 122 c
    || c == b'-'
    || c == b'_'
    || c == b'.'
    || c == b'~'

-- `{:X}` of a number below 16.
abbrev pub upper_digit : ℕ → ℕ
upper_digit d = if ltb d 10 then 48 + d else 55 + d

unfoldable pub pct : Bytes → Bytes
pct [] = []
pct (c ∷ cs) =
    let rest = pct cs in
    if is_unreserved c
    then c ∷ rest
    else b'%' ∷ (upper_digit (c / 16) ∷ (upper_digit (c % 16) ∷ rest))

abbrev pub hex_val : ℕ → Option ℕ
hex_val c =
    if in_range 48 57 c
    then some (c - 48)
    else if in_range 97 102 c
    then some (c - 97 + 10)
    else if in_range 65 70 c
    then some (c - 65 + 10)
    else none

-- `%XX`: the low digit fills the four bits that the shift has freed.
abbrev pub escaped : ℕ → ℕ → ℕ → Option ℕ
escaped b hi lo = if b == b'%' then (do h ← hex_val hi; l ← hex_val lo; some (h * 16 + l)) else none

abbrev pub plain : ℕ → ℕ
plain b = if b == b'+' then b' ' else b

-- The loop of `pct_decode`: an escape needs two bytes behind the percent sign.
unfoldable pub decode_bytes : Bytes → Bytes
decode_bytes [] = []
decode_bytes (b ∷ []) = plain b ∷ []
decode_bytes (b ∷ (c ∷ [])) = plain b ∷ (plain c ∷ [])
decode_bytes (b ∷ (c ∷ (d ∷ rest))) = elim (escaped b c d) [
  | some v ↦ v ∷ decode_bytes rest
  | none ↦ plain b ∷ decode_bytes (c ∷ (d ∷ rest))
]

unfoldable pub pct_decode : Bytes → Bytes
pct_decode s = from_utf8_lossy (decode_bytes s)

-- `kv.splitn(2, '=')`
abbrev pub pair_of : Bytes → Bytes × Bytes
pair_of kv = ((split_once b'=' kv).0, pct_decode (or_else ((split_once b'=' kv).1) []))

abbrev pub pairs_of : List Bytes → List (Bytes × Bytes)
pairs_of [] = []
pairs_of (kv ∷ kvs) = if is_empty kv then pairs_of kvs else pair_of kv ∷ pairs_of kvs

-- The map of the parameters holds a value for each key; `insert` replaces the one that was there.
abbrev pub Params : Type 0
Params = List (Bytes × Bytes)

abbrev pub insert_param : Bytes → Bytes → Params → Params
insert_param k v [] = (k, v) ∷ []
insert_param k v ((k', v') ∷ ps) =
    let later = insert_param k v ps in if bytes_eq k' k then (k, v) ∷ ps else (k', v') ∷ later

-- `collect()` into the map, pair by pair.
abbrev pub collect_from : Params → List (Bytes × Bytes) → Params
collect_from ps [] = ps
collect_from ps ((k, v) ∷ kvs) = collect_from (insert_param k v ps) kvs

unfoldable pub parse_query : Bytes → Params
parse_query q = collect_from [] (pairs_of (split b'&' q))

-- `params.get(k)`
abbrev pub param : Bytes → Params → Option Bytes
param k [] = none
param k ((k', v) ∷ ps) = let later = param k ps in if bytes_eq k' k then some v else later

unfoldable pub qr_url : Bytes → Bytes → PcIdentity → Bytes
qr_url token lip id =
    gateway
    ++ (codes "?s=&f=pc&t="
        ++ (token
            ++ (codes "&u="
                ++ (pct id.account
                    ++ (codes "&d="
                        ++ (pct id.device_name
                            ++ (codes "&mac="
                                ++ (pct id.pc_mac
                                    ++ (codes "&id="
                                        ++ (pct id.pc_mac
                                            ++ (codes "&ls=true&lip="
                                                ++ (lip ++ codes "&pb=0"))))))))))))

pub record PhoneNotify : Type 0 where
  pub phone_ip : Bytes
  pub ble_id : Bytes
  pub device_name : Bytes
  pub vivo_account : Bytes
  pub device_type : Bytes

-- The request is read up to its blank line, the end, an error, or more than 16384 bytes; nothing is
-- known when a read does not return in time.
unfoldable pub read_request : Bytes → List Read → Option Bytes
read_request buf [] = none
read_request buf (failed ∷ reads) = some buf
read_request buf (got c ∷ reads) =
    let more = read_request (buf ++ c) reads in
    if is_empty c then some buf else elim (position_of (codes "\r\n\r\n") (buf ++ c)) [
      | some i ↦ some (buf ++ c)
      | none ↦ if ltb 16384 (length (buf ++ c)) then some (buf ++ c) else more
    ]

abbrev pub notify_of : Bytes → Params → PhoneNotify
notify_of peer_ip params =
    let of = λ (k : Bytes). or_else (param k params) [] in
    record {
      phone_ip = if is_empty (of (codes "phoneIp")) then peer_ip else of (codes "phoneIp");
      ble_id = of (codes "bleId");
      device_name = of (codes "deviceName");
      vivo_account = of (codes "vivoAccount");
      device_type = of (codes "deviceType");
    }

-- The target of a request: the second word of its first line.
abbrev pub target_of : Bytes → Bytes
target_of req = or_else (do l ← get_elem? (lines req) 0; get_elem? (split_whitespace l) 1) []

-- What a request reports; without one it is answered by 404.
unfoldable pub on_request : Bytes → Bytes → Option PhoneNotify
on_request peer_ip buf =
    let (path, q) = split_once b'?' (target_of (from_utf8_lossy buf)) in
    if bytes_eq path (codes "/notifyConnection")
    then some (notify_of peer_ip (parse_query (or_else q [])))
    else none

-- A round of the loop: what it waited for.
pub data Visit : Type 0 where
  cancelled out_of_time tick accept_failed : Visit
  connection : Bytes → List Read → Visit

pub data Reply : Type 0 where
  ok_200 not_found : Reply

-- The loop, with the replies that it sent; `none` while it still waits.
unfoldable pub wait_for_phone : List Visit → List Reply × Option (Result PhoneNotify)
wait_for_phone [] = ([], none)
wait_for_phone (cancelled ∷ vs) = ([], some (bail "pairing cancelled"))
wait_for_phone (out_of_time ∷ vs) = ([], some (bail "no phone within"))
wait_for_phone (tick ∷ vs) = wait_for_phone vs
wait_for_phone (accept_failed ∷ vs) = wait_for_phone vs
wait_for_phone (connection peer_ip reads ∷ vs) =
    let (replies, later) = wait_for_phone vs in
    elim (do buf ← read_request [] reads; on_request peer_ip buf) [
      | some n ↦ (ok_200 ∷ [], some (done n))
      | none ↦ (not_found ∷ replies, later)
    ]
