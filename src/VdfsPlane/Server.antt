-- ===== src/VdfsPlane/Server.antt =====
-- crates/pcsuite-core/src/vdfs.rs: the 5679 server.
pub mod Paths
pub mod StatReply
use pcsuite_rs.Base.{
  ℕ, zero, suc, ◌+◌, ◌-◌, ◌*◌, ◌^◌, ◌≤◌, ◌<◌, ◌≡◌, refl, Bool, true, false, ◌&&◌, not, List, [],
  ◌∷◌, ◌++◌, map, Option, none, some, length, ltb, leb, if◌then◌else◌, ◌==◌, take, drop, replicate,
  splice, bit_or,
}
use pcsuite_rs.Base.Wire.{Bytes, codes, to_be, starts_with}
use pcsuite_rs.Base.Utf8.{from_utf8_lossy}
use pcsuite_rs.Base.Result.{Result, done, bail, ◌>>=◌, context}
use pcsuite_rs.Crypto.{Crypted, good, bad, Primitives}
use pcsuite_rs.Crypto.Gcm.{gcm12_seal, gcm12_open_noauth}
use pcsuite_rs.Vdfs.{
  request_total_len, request_ciphertext, response_frame, stat_mode_offset, stat_size_offset,
  stat_mtime_offset, s_ifdir, s_ifreg, dt_dir, dt_lnk, dt_reg, cmd_stat, cmd_list, cmd_read,
  request_ct_offset,
}
use pcsuite_rs.Vdfs.Request.{Request, parse_request}
use pcsuite_rs.Vdfs.Dirent.{DirEntry, serialize_dirent_list}
use pcsuite_rs.VdfsPlane.{Metadata, FileType, dir, symlink, file, unknown, FileSystem}

abbrev pub stat_template : Bytes
stat_template =
    replicate 14 0
    ++ (0x81
        ∷ 0x80
        ∷ 0
        ∷ 0
        ∷ 0
        ∷ 0
        ∷ 1
        ∷ 0xf5
        ∷ 0
        ∷ 0
        ∷ 0
        ∷ 0x14
        ∷ (replicate 9 0
            ++ (0x0e
                ∷ 0x12
                ∷ 0xae
                ∷ (replicate 16 0
                    ++ (0x6a
                        ∷ 0x2f
                        ∷ 0xd6
                        ∷ 0xa6
                        ∷ 0
                        ∷ 0
                        ∷ 0
                        ∷ 0
                        ∷ 0x6a
                        ∷ 0x2f
                        ∷ 0xd6
                        ∷ 0xa4
                        ∷ replicate 8 0)))))

abbrev pub with_mtime : Option ℕ → Bytes → Bytes
with_mtime none st = st
with_mtime (some secs) st = splice stat_mtime_offset (to_be 8 secs) st

-- `S_IFDIR | 0o755` and `S_IFREG | 0o644`
abbrev pub mode_of : Bool → ℕ
mode_of is_dir = if is_dir then bit_or s_ifdir 0o755 else bit_or s_ifreg 0o644

unfoldable pub build_stat_response : FileSystem → Bytes → Bytes
build_stat_response fs path = elim (fs.metadata path) [
  | none ↦ stat_template
  | some md ↦
      let sized = splice stat_size_offset (to_be 8 md.len) stat_template in
      let moded = splice stat_mode_offset (to_be 4 (mode_of md.is_dir)) sized in
      with_mtime md.modified moded
]

abbrev pub d_type_of : FileType → ℕ
d_type_of dir = dt_dir
d_type_of symlink = dt_lnk
d_type_of file = dt_reg
d_type_of unknown = 0

abbrev to_dir_entries : List (Bytes × FileType) → List DirEntry
to_dir_entries [] = []
to_dir_entries ((name, ft) ∷ es) =
    record { name = from_utf8_lossy name; d_type = d_type_of ft } ∷ to_dir_entries es

unfoldable pub list_local_dir : FileSystem → Bytes → List DirEntry
list_local_dir fs path = elim (fs.read_dir path) [ none ↦ [] | some es ↦ to_dir_entries es ]

-- Seek, then read until the buffer is full or the file ends.
unfoldable pub read_file_range : FileSystem → Bytes → ℕ → ℕ → Option Bytes
read_file_range fs path offset size = elim (fs.contents path) [
  | none ↦ none
  | some content ↦ some (take size (drop offset content))
]

-- `name.strip_prefix(pc_id).unwrap_or(name)`
abbrev pub strip_id : Bytes → Bytes → Bytes
strip_id name pc_id = if starts_with name pc_id then drop (length pc_id) name else name

-- `replace('\\', "/")`
abbrev pub slash : ℕ → ℕ
slash c = if c == b'\\' then b'/' else c

-- `p.replace("//", "/")`: matches from the left that do not overlap. The flag says that a slash is held
-- back.
unfoldable pub halve_slashes : Bool → Bytes → Bytes
halve_slashes true [] = b'/' ∷ []
halve_slashes false [] = []
halve_slashes true (c ∷ cs) =
    let closed = b'/' ∷ halve_slashes false cs in
    let kept = b'/' ∷ c ∷ halve_slashes false cs in if c == b'/' then closed else kept
halve_slashes false (c ∷ cs) =
    let held = halve_slashes true cs in
    let plain = c ∷ halve_slashes false cs in if c == b'/' then held else plain

-- `p.contains("//")`
unfoldable pub has_double : Bytes → Bool
unfolding starts_with
has_double [] = false
has_double (c ∷ cs) = if starts_with (c ∷ cs) (codes "//") then true else has_double cs

unfoldable pub collapse_loop : ℕ → Bytes → Bytes
collapse_loop zero p = p
collapse_loop (suc fuel) p =
    let rest = collapse_loop fuel (halve_slashes false p) in if has_double p then rest else p

-- Each round shortens the path, so a round for each byte is enough.
unfoldable pub name_to_path : Bytes → Bytes → Bytes
name_to_path name pc_id = let p = map slash (strip_id name pc_id) in collapse_loop (length p) p

-- `match req.cmd` of `serve_conn`.
unfoldable pub response_plaintext : FileSystem → Request → Bytes → Result Bytes
response_plaintext fs req path =
    if req.cmd == cmd_stat
    then done (build_stat_response fs path)
    else if req.cmd == cmd_list
    then done (serialize_dirent_list (list_local_dir fs path))
    else if req.cmd == cmd_read
    then done (elim (read_file_range fs path req.offset req.size) [ none ↦ [] | some d ↦ d ])
    else bail "unsupported vdfs cmd"

-- `.map_err(|e| anyhow!("…: {e}"))`
abbrev pub lift {ℓ} : {A : Type ℓ} → Crypted A → Result A
lift (good a) = done a
lift (bad e) = bail "crypto"

-- `read_exact` of `n` bytes: the bytes, or an error at EOF.
abbrev pub read_exact : ℕ → Bytes → Result Bytes
read_exact n bs = if ltb (length bs) n then bail "early eof" else done (take n bs)

abbrev pub max_request : ℕ
max_request = 64 * 2 ^ 20

unfoldable pub serve_conn : Primitives → FileSystem → Bytes → Bytes → Bytes → Bytes → Result Bytes
serve_conn p fs key iv pc_id stream = do
  head ← read_exact 8 stream
  total ← context (request_total_len head) "bad request head"
  body ←
      (if leb request_ct_offset total && leb total max_request
        then read_exact (total - 8) (drop 8 stream)
        else bail "implausible vdfs request length")
  ctext ← context (request_ciphertext (head ++ body)) "short request frame"
  pt ← lift (gcm12_open_noauth p ctext key iv)
  req ← context (parse_request pt) "unparseable vdfs request"
  let path = name_to_path (from_utf8_lossy req.name) pc_id
  resp_pt ← response_plaintext fs req path
  (ct, tag) ← lift (gcm12_seal p resp_pt key iv)
  done (response_frame tag ct)
