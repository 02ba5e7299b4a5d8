-- ===== src/Vdfs/Stat.antt =====
-- crates/pcsuite-proto/src/vdfs.rs: the 74-byte STAT structure.
use pcsuite_rs.Base.{
  ℕ, ◌≤◌, ◌<◌, ◌≡◌, Bool, Option, none, some, length, ltb, if◌then◌else◌, ◌==◌, bit_and, arith,
  lt→ltb, slice, le→ltb_false, get_range?-some, ◌⊎◌, inl, inr,
}
use pcsuite_rs.Base.Wire.{Bytes, from_be}
use native.Mathlib.Decide.{dec_lt}
use pcsuite_rs.Base.Maybe.{◌>>=◌}
use pcsuite_rs.Vdfs.{
  be32, be64, stat_plaintext_len, stat_mode_offset, stat_size_offset, stat_mtime_offset, s_ifmt,
  s_ifdir, s_ifreg, s_iflnk,
}

pub record Stat : Type 0 where
  pub mode : ℕ
  pub size : ℕ
  pub mtime : ℕ

unfoldable pub is_dir : Stat → Bool
is_dir st = bit_and st.mode s_ifmt == s_ifdir

unfoldable pub is_file : Stat → Bool
is_file st = bit_and st.mode s_ifmt == s_ifreg

unfoldable pub is_symlink : Stat → Bool
is_symlink st = bit_and st.mode s_ifmt == s_iflnk

unfoldable pub stat_size : Bytes → Option ℕ
stat_size pt = be64 pt stat_size_offset

unfoldable pub parse_stat : Bytes → Option Stat
parse_stat pt = if ltb (length pt) stat_plaintext_len then none else do
  mode ← be32 pt stat_mode_offset
  size ← be64 pt stat_size_offset
  mtime ← be64 pt stat_mtime_offset
  some (record { mode = mode; size = size; mtime = mtime })

-- `parse_stat` succeeds exactly on 74 bytes or more, and its size is then the one that `stat_size`
-- reads.
pub parse_stat_total :
    (pt : Bytes)
    → ((length pt < 74) × (parse_stat pt ≡ none))
      ⊎ ((74 ≤ length pt)
          × ((st : Stat) × (parse_stat pt ≡ some st) × (stat_size pt ≡ some st.size)))
unfolding parse_stat stat_size be32 be64
parse_stat_total pt = elim (dec_lt (length pt) 74) [
  | yes h ↦ inl (h, rw (lt→ltb (length pt) 74 h))
  | no h ↦ inr (
    omega arith,
    (
      record {
        mode = from_be (slice 12 16 pt);
        size = from_be (slice 30 38 pt);
        mtime = from_be (slice 58 66 pt);
      },
      rw (
        le→ltb_false (length pt) 74 (omega arith),
        get_range?-some 12 16 pt (omega arith) (omega arith),
        get_range?-some 30 38 pt (omega arith) (omega arith),
        get_range?-some 58 66 pt (omega arith) (omega arith),
      ),
      rw (get_range?-some 30 38 pt (omega arith) (omega arith)),
    ),
  )
]
