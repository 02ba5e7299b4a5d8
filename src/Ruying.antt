-- ===== src/Ruying.antt =====
-- crates/pcsuite-proto/src/ruying.rs: the 8904 "ruying" frame, an 8-byte length prefix, a 30-byte
-- inner header and the ciphertext. A Rust array of n bytes is a list of length n.
pub mod RoundTrip
pub mod Partial
pub mod Sound
mod Tests
use pcsuite_rs.Base.{
  ℕ, ◌+◌, ◌-◌, ◌%◌, not, [], ◌∷◌, ◌++◌, length, ltb, ◌==◌, if◌then◌else◌, slice, get_or, replicate,
}
use pcsuite_rs.Base.Wire.{Bytes, to_be, from_be}
use pcsuite_rs.Base.Outcome.{Outcome, ok, ◌>>=◌, index_range, usize_mod, u32_mod}

abbrev pub prefix_len : ℕ
prefix_len = 8

abbrev pub inner_len : ℕ
inner_len = 30

abbrev pub header_len : ℕ
header_len = 38

abbrev pub version_byte : ℕ
version_byte = 1

pub record RuyingFrame : Type 0 where
  pub version : ℕ
  pub field_a : Bytes
  pub field_b : Bytes
  pub byte_c : ℕ
  pub byte_d : ℕ
  pub field_e : Bytes
  pub cipher : Bytes

-- `impl Default for RuyingFrame`
abbrev pub default_frame : RuyingFrame
default_frame = record {
  version = version_byte;
  field_a = replicate 6 0;
  field_b = replicate 6 0;
  byte_c = 0;
  byte_d = 0;
  field_e = replicate 11 0;
  cipher = [];
}

unfoldable pub build : RuyingFrame → Bytes
build f =
    let clen = length f.cipher in
    to_be 8 ((inner_len + clen) % usize_mod)
    ++ (f.version
        ∷ (f.field_a
            ++ (f.field_b
                ++ (f.byte_c ∷ f.byte_d ∷ (f.field_e ++ (to_be 4 (clen % u32_mod) ++ f.cipher))))))

pub data Parsed : Type 0 where
  frame : RuyingFrame → ℕ → Parsed
  need_more : ℕ → Parsed
  invalid : Parsed

-- The part of `parse` behind the length checks; `inner` is `buf[8..38]`.
unfoldable pub parse_inner : Bytes → Bytes → ℕ → ℕ → Outcome Parsed
parse_inner buf inner total_rest need =
    if not (get_or inner 0 0 == version_byte)
    then ok invalid
    else if not (from_be (slice 26 30 inner) == total_rest - inner_len)
    then ok invalid
    else do
      cipher ← index_range header_len need buf
      ok (
          frame
            (record {
              version = get_or inner 0 0;
              field_a = slice 1 7 inner;
              field_b = slice 7 13 inner;
              byte_c = get_or inner 13 0;
              byte_d = get_or inner 14 0;
              field_e = slice 15 26 inner;
              cipher = cipher;
            })
            need)

unfoldable pub parse : Bytes → Outcome Parsed
parse buf =
    if ltb (length buf) prefix_len
    then ok (need_more prefix_len)
    else let total_rest = from_be (slice 0 prefix_len buf) in
      if ltb total_rest inner_len
      then ok invalid
      else let need = (prefix_len + total_rest) % usize_mod in
        if ltb (length buf) need
        then ok (need_more need)
        else do inner ← index_range prefix_len header_len buf; parse_inner buf inner total_rest need
