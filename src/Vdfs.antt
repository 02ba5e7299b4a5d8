-- ===== src/Vdfs.antt =====
-- crates/pcsuite-proto/src/vdfs.rs: the constants of the vdfs file plane, its integer readers, its
-- data types and its two frames. Lengths are below 2 ^ 64, so the `+` of `usize` is written plainly
-- where its operands are bounded by 32-bit values and buffer lengths.
pub mod Request
pub mod Stat
pub mod Dirent
mod Tests
use pcsuite_rs.Base.{
  ℕ, ◌+◌, ◌%◌, ◌^◌, ◌≤◌, ◌<◌, ◌≡◌, refl, ap, sym, ◌∙◌, Bool, List, [], ◌∷◌, ◌++◌, Option, none,
  some, length, ltb, if◌then◌else◌, ◌==◌, slice, drop, bit_and, get_range?, get_from?, arith,
  length-append, take-append, le→ltb_false, le→leb, drop-append, drop-append_add, get_range?-some,
}
use pcsuite_rs.Base.Wire.{Bytes, codes, to_be, from_be, length-to_be, from_be-to_be}
use pcsuite_rs.Base.Outcome.{usize_mod, u32_mod}
use pcsuite_rs.Base.Maybe.{◌>>=◌}

abbrev pub const16 : Bytes
const16 = codes "0123456789abcdef"

abbrev pub cmd_list : ℕ
cmd_list = 2

abbrev pub cmd_stat : ℕ
cmd_stat = 3

abbrev pub cmd_read : ℕ
cmd_read = 6

abbrev pub request_ct_offset : ℕ
request_ct_offset = 24

abbrev pub response_ct_offset : ℕ
response_ct_offset = 22

abbrev pub stat_plaintext_len : ℕ
stat_plaintext_len = 74

abbrev pub stat_mode_offset : ℕ
stat_mode_offset = 12

abbrev pub stat_size_offset : ℕ
stat_size_offset = 30

abbrev pub stat_mtime_offset : ℕ
stat_mtime_offset = 58

abbrev pub s_ifmt : ℕ
s_ifmt = 0o170000

abbrev pub s_ifdir : ℕ
s_ifdir = 0o040000

abbrev pub s_ifreg : ℕ
s_ifreg = 0o100000

abbrev pub s_iflnk : ℕ
s_iflnk = 0o120000

abbrev pub dt_dir : ℕ
dt_dir = 4

abbrev pub dt_reg : ℕ
dt_reg = 8

abbrev pub dt_lnk : ℕ
dt_lnk = 0xa

-- `b.get(at..at + 2)` and its like, read big-endian.
unfoldable pub be16 : Bytes → ℕ → Option ℕ
be16 b at = do s ← get_range? at (at + 2) b; some (from_be s)

unfoldable pub be32 : Bytes → ℕ → Option ℕ
be32 b at = do s ← get_range? at (at + 4) b; some (from_be s)

unfoldable pub be64 : Bytes → ℕ → Option ℕ
be64 b at = do s ← get_range? at (at + 8) b; some (from_be s)

unfoldable pub request_frame : Bytes → Bytes → Bytes
request_frame tag ciphertext =
    to_be 8 ((8 + 16 + length ciphertext) % usize_mod) ++ (tag ++ ciphertext)

unfoldable pub request_total_len : Bytes → Option ℕ
request_total_len head8 = if ltb (length head8) 8 then none else some (from_be (slice 0 8 head8))

unfoldable pub request_ciphertext : Bytes → Option Bytes
request_ciphertext frame = get_from? request_ct_offset frame

unfoldable pub response_frame : Bytes → Bytes → Bytes
response_frame tag ciphertext =
    3 ∷ (to_be 4 ((length ciphertext + 17) % u32_mod) ++ (0 ∷ (tag ++ ciphertext)))

unfoldable pub response_ciphertext : Bytes → Option Bytes
response_ciphertext resp = get_from? response_ct_offset resp

pub length-request_frame :
    (tag ct : Bytes) → length tag ≡ 16 → length (request_frame tag ct) ≡ 24 + length ct
unfolding request_frame
length-request_frame tag ct h = omega (
  arith,
  length-append (to_be 8 ((8 + 16 + length ct) % usize_mod)) (tag ++ ct),
  length-to_be 8 ((8 + 16 + length ct) % usize_mod),
  length-append tag ct,
)

pub length-response_frame :
    (tag ct : Bytes) → length tag ≡ 16 → length (response_frame tag ct) ≡ 22 + length ct
unfolding response_frame
length-response_frame tag ct h = omega (
  arith,
  length-append (to_be 4 ((length ct + 17) % u32_mod)) (0 ∷ (tag ++ ct)),
  length-to_be 4 ((length ct + 17) % u32_mod),
  length-append tag ct,
)

-- A request frame announces its own length, and its ciphertext is found behind length and tag.
pub request_frame_fields :
    (tag ct : Bytes)
    → length tag ≡ 16
    → length ct < 2 ^ 63
    → (request_total_len (request_frame tag ct) ≡ some (length (request_frame tag ct)))
      × (request_ciphertext (request_frame tag ct) ≡ some ct)
unfolding request_total_len request_ciphertext request_frame
request_frame_fields tag ct h fits =
    let size = (8 + 16 + length ct) % usize_mod in
    let len = length-request_frame tag ct h in
    let frame = request_frame tag ct in
    (
      rw
          (
            le→ltb_false (length frame) 8 (omega (arith, len)),
            len,
            take-append 8 (to_be 8 size) (tag ++ ct) (length-to_be 8 size),
            from_be-to_be 8 size (omega arith),
          )
          (ap some (omega arith)),
      rw (le→leb 24 (length frame) (omega (arith, len))) (
          ap some (
            drop-append_add 8 16 (to_be 8 size) (tag ++ ct) (length-to_be 8 size)
            ∙ drop-append 16 tag ct h)),
    )

-- A response frame's ciphertext is found behind its 22-byte header, and the length field at offset 1
-- counts the rest of the frame.
pub response_frame_fields :
    (tag ct : Bytes)
    → length tag ≡ 16
    → length ct < 2 ^ 31
    → (response_ciphertext (response_frame tag ct) ≡ some ct)
      × (be32 (response_frame tag ct) 1 ≡ some (length ct + 17))
unfolding response_ciphertext response_frame be32
response_frame_fields tag ct h fits =
    let size = (length ct + 17) % u32_mod in
    let len = length-response_frame tag ct h in
    let frame = response_frame tag ct in
    (
      rw (le→leb 22 (length frame) (omega (arith, len))) (
          ap some (
            drop-append_add 4 17 (to_be 4 size) (0 ∷ (tag ++ ct)) (length-to_be 4 size)
            ∙ drop-append 16 tag ct h)),
      rw
          (
            get_range?-some 1 5 frame (omega arith) (omega (arith, len)),
            take-append 4 (to_be 4 size) (0 ∷ (tag ++ ct)) (length-to_be 4 size),
            from_be-to_be 4 size (omega arith),
          )
          (ap some (omega arith)),
    )
