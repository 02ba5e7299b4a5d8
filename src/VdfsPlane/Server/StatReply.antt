-- ===== src/VdfsPlane/Server/StatReply.antt =====
-- The STAT reply of the 5679 server: crates/pcsuite-core/src/vdfs.rs.
use pcsuite_rs.Base.{
  ℕ, ◌^◌, ◌<◌, ◌≡◌, refl, ap, ◌∙◌, Bool, true, false, not, Option, none, some, length, slice,
  splice, arith, length-splice, slice-splice, slice-splice_before, slice-splice_after, le→ltb_false,
  get_range?-some,
}
use pcsuite_rs.Base.Wire.{Bytes, to_be, from_be, length-to_be, from_be-to_be}
use pcsuite_rs.Base.Maybe.{or_else}
use pcsuite_rs.Vdfs.{be32, be64}
use pcsuite_rs.Vdfs.Stat.{Stat, parse_stat}
use pcsuite_rs.Vdfs.Stat
use pcsuite_rs.VdfsPlane.{Metadata, FileSystem}
use pcsuite_rs.VdfsPlane.Server.{stat_template, with_mtime, mode_of, build_stat_response}

-- The modification time that the template carries.
abbrev pub template_mtime : ℕ
template_mtime = 0x6a2fd6a4

-- Three fields written into a 74-byte structure, read back by `parse_stat`.
module _ (xs : Bytes) (len : length xs ≡ 74) (mode size : ℕ) where
  abbrev sized : Bytes
  sized = splice 30 (to_be 8 size) xs

  abbrev moded : Bytes
  moded = splice 12 (to_be 4 mode) sized

  length-sized : length sized ≡ 74
  length-sized = length-splice 30 (to_be 8 size) xs (omega (arith, len, length-to_be 8 size)) ∙ len

  length-moded : length moded ≡ 74
  length-moded =
      length-splice 12 (to_be 4 mode) sized (omega (arith, length-to_be 4 mode, length-sized))
      ∙ length-sized

  moded_mode : slice 12 16 moded ≡ to_be 4 mode
  moded_mode =
      slice-splice 12 4 (to_be 4 mode) sized (length-to_be 4 mode) (omega (arith, length-sized))

  moded_size : slice 30 38 moded ≡ to_be 8 size
  moded_size =
      slice-splice_after 30 38 12 (to_be 4 mode) sized (omega (arith, length-to_be 4 mode))
        (omega (arith, length-to_be 4 mode, length-sized))
      ∙ slice-splice 30 8 (to_be 8 size) xs (length-to_be 8 size) (omega (arith, len))

  moded_mtime : slice 58 66 moded ≡ slice 58 66 xs
  moded_mtime =
      slice-splice_after 58 66 12 (to_be 4 mode) sized (omega (arith, length-to_be 4 mode))
        (omega (arith, length-to_be 4 mode, length-sized))
      ∙ slice-splice_after 58 66 30 (to_be 8 size) xs (omega (arith, length-to_be 8 size))
          (omega (arith, length-to_be 8 size, len))

  abbrev timed : Option ℕ → Bytes
  timed t = with_mtime t moded

  length-timed : (t : Option ℕ) → length (timed t) ≡ 74
  length-timed none = length-moded
  length-timed (some secs) =
      length-splice 58 (to_be 8 secs) moded (omega (arith, length-to_be 8 secs, length-moded))
      ∙ length-moded

  timed_mode : (t : Option ℕ) → slice 12 16 (timed t) ≡ to_be 4 mode
  timed_mode none = moded_mode
  timed_mode (some secs) =
      slice-splice_before 12 16 58 (to_be 8 secs) moded (omega arith) (omega arith)
        (omega (arith, length-moded))
      ∙ moded_mode

  timed_size : (t : Option ℕ) → slice 30 38 (timed t) ≡ to_be 8 size
  timed_size none = moded_size
  timed_size (some secs) =
      slice-splice_before 30 38 58 (to_be 8 secs) moded (omega arith) (omega arith)
        (omega (arith, length-moded))
      ∙ moded_size

  timed_mtime :
      (t : Option ℕ)
      → or_else t 0 < 2 ^ 64
      → from_be (slice 58 66 (timed t)) ≡ or_else t (from_be (slice 58 66 xs))
  timed_mtime none h = ap from_be moded_mtime
  timed_mtime (some secs) h =
      ap from_be
        (slice-splice 58 8 (to_be 8 secs) moded (length-to_be 8 secs) (omega (arith, length-moded)))
      ∙ from_be-to_be 8 secs (omega arith)

  parse_stat-timed :
      (t : Option ℕ)
      → mode < 2 ^ 32
      → size < 2 ^ 64
      → or_else t 0 < 2 ^ 64
      → parse_stat (timed t)
        ≡ some (record { mode = mode; size = size; mtime = or_else t (from_be (slice 58 66 xs)) })
  unfolding parse_stat be32 be64
  parse_stat-timed t hm hs ht =
      let l = length-timed t in
      rw (
        le→ltb_false (length (timed t)) 74 (omega (arith, l)),
        get_range?-some 12 16 (timed t) (omega arith) (omega (arith, l)),
        get_range?-some 30 38 (timed t) (omega arith) (omega (arith, l)),
        get_range?-some 58 66 (timed t) (omega arith) (omega (arith, l)),
        timed_mode t,
        timed_size t,
        timed_mtime t ht,
        from_be-to_be 4 mode (omega arith),
        from_be-to_be 8 size (omega arith),
      )

mode_of-lt : (b : Bool) → mode_of b < 2 ^ 32
mode_of-lt true = omega arith
mode_of-lt false = omega arith

mode_dir :
    (b : Bool) (size mtime : ℕ)
    → Stat.is_dir (record { mode = mode_of b; size = size; mtime = mtime }) ≡ b
unfolding Stat.is_dir
mode_dir true size mtime = refl
mode_dir false size mtime = refl

mode_file :
    (b : Bool) (size mtime : ℕ)
    → Stat.is_file (record { mode = mode_of b; size = size; mtime = mtime }) ≡ not b
unfolding Stat.is_file
mode_file true size mtime = refl
mode_file false size mtime = refl

build_stat_response-timed :
    (fs : FileSystem) (path : Bytes) (md : Metadata)
    → fs.metadata path ≡ some md
    → build_stat_response fs path ≡ timed stat_template refl (mode_of md.is_dir) md.len md.modified
unfolding build_stat_response
build_stat_response-timed fs path md e = rw (build_stat_response, e)

-- The STAT reply for a path with metadata has 74 bytes, and a client parses from it the size, the time
-- and a mode whose type is the path's: a directory's exactly for a directory, else a regular file's.
-- Where the platform gives no time, the client sees the template's.
pub parse_stat-build_stat_response :
    (fs : FileSystem) (path : Bytes) (md : Metadata)
    → fs.metadata path ≡ some md
    → md.len < 2 ^ 64
    → or_else md.modified 0 < 2 ^ 64
    → (length (build_stat_response fs path) ≡ 74)
      × ((st : Stat) × (parse_stat (build_stat_response fs path) ≡ some st)
          × (st.size ≡ md.len)
          × (st.mtime ≡ or_else md.modified template_mtime)
          × (Stat.is_dir st ≡ md.is_dir)
          × (Stat.is_file st ≡ not md.is_dir))
unfolding from_be
parse_stat-build_stat_response fs path md e hs ht = rw (build_stat_response-timed fs path md e) (
  length-timed stat_template refl (mode_of md.is_dir) md.len md.modified,
  (
    record { mode = mode_of md.is_dir; size = md.len; mtime = or_else md.modified template_mtime },
    parse_stat-timed stat_template refl (mode_of md.is_dir) md.len md.modified
        (mode_of-lt md.is_dir) hs ht,
    refl,
    refl,
    mode_dir md.is_dir _ _,
    mode_file md.is_dir _ _,
  ),
)
