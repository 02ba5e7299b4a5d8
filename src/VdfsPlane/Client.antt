-- ===== src/VdfsPlane/Client.antt =====
-- crates/pcsuite-core/src/vdfs.rs: the vdfs client.
use pcsuite_rs.Base.{
  ℕ, ◌+◌, Bool, false, ◌&&◌, List, [], ◌∷◌, ◌++◌, Option, none, some, length, ltb, leb,
  if◌then◌else◌, ◌==◌, take, slice, is_empty, get_or,
}
use pcsuite_rs.Base.Streams.{Read, got, failed}
use pcsuite_rs.Base.Wire.{Bytes, from_be}
use pcsuite_rs.Base.Result.{Result, done, bail, ◌>>=◌, context}
use pcsuite_rs.Crypto.{Primitives}
use pcsuite_rs.Crypto.Gcm.{gcm12_seal, gcm12_open_noauth}
use pcsuite_rs.Vdfs.{request_frame, response_ciphertext, response_ct_offset, stat_plaintext_len}
use pcsuite_rs.Vdfs.Request.{stat_plaintext, list_plaintext, read_plaintext}
use pcsuite_rs.Vdfs.Stat.{Stat, parse_stat}
use pcsuite_rs.Vdfs.Dirent.{DirEntry, parse_dirent_list}
use pcsuite_rs.VdfsPlane.Server.{lift}

-- Connecting and sending a frame, then the reads that follow; `none` is a failed connection.
abbrev pub Network : Type 0
Network = Bytes → Option (List Read)

unfoldable pub read_loop : ℕ → Bytes → List Read → Result Bytes
read_loop min_resp buf [] = done buf
read_loop min_resp buf (failed ∷ reads) =
    if ltb (length buf) min_resp then bail "read" else done buf
read_loop min_resp buf (got chunk ∷ reads) =
    let rest = read_loop min_resp (buf ++ chunk) reads in
    if ltb (length buf) min_resp then if is_empty chunk then done buf else rest else done buf

unfoldable pub roundtrip : Network → Bytes → ℕ → Result Bytes
roundtrip net frame min_resp = do reads ← context (net frame) "connect"; read_loop min_resp [] reads

-- `if total.is_none() && buf.len() >= 5 && buf[0] == 0x03 { total = Some(5 + adv) }`
unfoldable pub next_total : Option ℕ → Bytes → Option ℕ
next_total (some t) buf = some t
next_total none buf =
    if leb 5 (length buf) && get_or buf 0 0 == 3 then some (5 + from_be (slice 1 5 buf)) else none

-- `if let Some(t) = total { if buf.len() >= t { break } }`
unfoldable pub is_whole : Option ℕ → Bytes → Bool
is_whole none buf = false
is_whole (some t) buf = leb t (length buf)

unfoldable pub framed_loop : Option ℕ → Bytes → List Read → Result Bytes
framed_loop total buf [] = done buf
framed_loop total buf (failed ∷ reads) = if is_whole total buf then done buf else bail "read"
framed_loop total buf (got chunk ∷ reads) =
    let rest = framed_loop (next_total total (buf ++ chunk)) (buf ++ chunk) reads in
    if is_whole total buf then done buf else if is_empty chunk then done buf else rest

unfoldable pub roundtrip_framed : Network → Bytes → Result Bytes
roundtrip_framed net frame = do reads ← context (net frame) "connect"; framed_loop none [] reads

module _ (p : Primitives) (net : Network) (key iv : Bytes) where
  unfoldable pub stat_name : Bytes → Result Stat
  stat_name name = do
    (ct, tag) ← lift (gcm12_seal p (stat_plaintext 0x41 name) key iv)
    resp ← roundtrip net (request_frame tag ct) (response_ct_offset + stat_plaintext_len)
    ctext ← context (response_ciphertext resp) "short stat response"
    pt ← lift (gcm12_open_noauth p ctext key iv)
    context (parse_stat pt) "stat parse failed"

  unfoldable pub read : Bytes → ℕ → ℕ → Result Bytes
  read name size offset = do
    (ct, tag) ← lift (gcm12_seal p (read_plaintext 0x42 size offset name) key iv)
    resp ← roundtrip net (request_frame tag ct) (response_ct_offset + size)
    ctext ← context (response_ciphertext resp) "short read response"
    pt ← lift (gcm12_open_noauth p ctext key iv)
    done (take size pt)

  unfoldable pub stat : Bytes → Bytes → Result Stat
  unfolding stat_name
  stat device_id path = stat_name (device_id ++ path)

  unfoldable pub list_dir : Bytes → Bytes → Result (List DirEntry)
  list_dir device_id path = do
    (ct, tag) ← lift (gcm12_seal p (list_plaintext 0x43 (device_id ++ path)) key iv)
    resp ← roundtrip_framed net (request_frame tag ct)
    ctext ← context (response_ciphertext resp) "short list response"
    pt ← lift (gcm12_open_noauth p ctext key iv)
    done (parse_dirent_list pt)

  unfoldable pub fetch : Bytes → Bytes → Result Bytes
  fetch device_id path = do
    st ← stat_name (device_id ++ path)
    if st.size == 0 then bail "vdfs stat returned size 0" else read (device_id ++ path) st.size 0
