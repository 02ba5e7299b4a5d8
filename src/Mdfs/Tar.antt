-- ===== src/Mdfs/Tar.antt =====
-- crates/pcsuite-core/src/mdfs.rs: reading tar archives in memory, and header fields.
pub mod Archives
pub mod Extract
pub mod Free
pub mod Plain
pub mod Added
pub mod Inside
use pcsuite_rs.Base.{
  ℕ, zero, suc, ◌+◌, ◌-◌, ◌*◌, ◌/◌, ◌%◌, ◌^◌, ◌<◌, ◌≤◌, ◌≡◌, refl, Bool, true, false, not, ◌&&◌,
  ◌||◌, List, [], ◌∷◌, ◌++◌, Option, none, some, length, ltb, leb, if◌then◌else◌, ◌==◌, take, drop,
  min, is_empty, slice, get_or, bit_and, bit_or, bytes_eq,
}
use pcsuite_rs.Base.Wire.{Bytes, codes, starts_with}
use pcsuite_rs.Base.Outcome.{usize_mod}
use pcsuite_rs.Base.Text.{in_range, lines, strip_prefix, from_str_radix, split_once}
use pcsuite_rs.Base.Utf8.{from_utf8_lossy}
use pcsuite_rs.Base.Maybe.{or_else}
use pcsuite_rs.Base.Result.{Result, done, bail}

-- `hdr.iter().all(|&b| b == 0)`
unfoldable pub all_zero : Bytes → Bool
all_zero [] = true
all_zero (b ∷ bs) = b == 0 && all_zero bs

-- The bytes up to the first NUL.
unfoldable pub until_nul : Bytes → Bytes
until_nul [] = []
until_nul (b ∷ bs) = let rest = b ∷ until_nul bs in if b == 0 then [] else rest

-- `take_while(|&&c| c != 0 && c != b' ')`
unfoldable pub until_end : Bytes → Bytes
until_end [] = []
until_end (b ∷ bs) = let rest = b ∷ until_end bs in if b == 0 || b == 32 then [] else rest

unfoldable pub skip_spaces : Bytes → Bytes
skip_spaces [] = []
skip_spaces (b ∷ bs) = let rest = skip_spaces bs in if b == 32 then rest else b ∷ bs

-- White space below U+0100: each byte of a field is read as the character of that number.
abbrev pub is_white : ℕ → Bool
is_white c = in_range 9 13 c || c == 32 || c == 0x85 || c == 0xa0

unfoldable pub trim_front : Bytes → Bytes
trim_front [] = []
trim_front (c ∷ cs) = let rest = trim_front cs in if is_white c then rest else c ∷ cs

unfoldable pub trim_back : Bytes → Bytes
trim_back [] = []
trim_back (c ∷ cs) =
    let rest = c ∷ trim_back cs in if is_empty (trim_front (c ∷ cs)) then [] else rest

unfoldable pub tar_octal : Bytes → ℕ
tar_octal field = or_else (from_str_radix 8 usize_mod (trim_back (trim_front (until_end field)))) 0

unfoldable pub base256 : ℕ → Bytes → ℕ
base256 n [] = n
base256 n (b ∷ bs) = base256 (bit_or ((n * 256) % usize_mod) b) bs

unfoldable pub tar_size : Bytes → ℕ
tar_size [] = or_else (from_str_radix 8 usize_mod []) 0
tar_size (b ∷ bs) =
    if not (bit_and b 0x80 == 0)
    then base256 0 bs
    else or_else (from_str_radix 8 usize_mod (until_end (skip_spaces (b ∷ bs)))) 0

unfoldable pub tar_name : Bytes → Bytes
tar_name hdr = from_utf8_lossy (until_nul (take 100 hdr))

unfoldable pub ustar_name : Bytes → Bytes
ustar_name hdr =
    let name = from_utf8_lossy (until_nul (slice 0 100 hdr)) in
    let prefix = from_utf8_lossy (until_nul (slice 345 500 hdr)) in
    if bytes_eq (slice 257 263 hdr) (codes "ustar" ++ (0 ∷ []))
    then if is_empty prefix then name else prefix ++ (b'/' ∷ name)
    else name

-- `rec.split_once(' ').and_then(|(_, kv)| kv.strip_prefix("path="))` of the first record that has one.
unfoldable pub first_path : List Bytes → Option Bytes
first_path [] = none
first_path (l ∷ ls) =
    let rest = first_path ls in
    elim ((split_once 32 l).1) [
      | none ↦ rest
      | some kv ↦ elim (strip_prefix (codes "path=") kv) [ none ↦ rest | some path ↦ some path ]
    ]

unfoldable pub pax_path : Bytes → Option Bytes
pax_path meta = first_path (lines (from_utf8_lossy meta))

-- `size.div_ceil(512) * 512`
abbrev pub padded : ℕ → ℕ
padded size = (size + 511) / 512 * 512

abbrev pub field_size : Bytes → ℕ
field_size hdr = tar_octal (slice 124 136 hdr)

abbrev pub typeflag : Bytes → ℕ
typeflag hdr = get_or hdr 156 0

-- The loop of `untar_first` from an offset on, with fuel.
unfoldable pub untar_first_loop : ℕ → Bytes → ℕ → Result Bytes
untar_first_loop zero bytes off = bail "no regular file entry in tar"
untar_first_loop (suc fuel) bytes off =
    let hdr = slice off (off + 512) bytes in
    let size = field_size hdr in
    let off' = off + 512 in
    let next = untar_first_loop fuel bytes (off' + padded size) in
    let found = done (slice off' (min (off' + size) (length bytes)) bytes) in
    if leb (off + 512) (length bytes)
    then if all_zero hdr
      then bail "no regular file entry in tar"
      else if (typeflag hdr == b'0' || typeflag hdr == 0) && ltb 0 size
      then found
      else next
    else bail "no regular file entry in tar"

-- Each round goes on by a block at least, so a round for each byte is enough.
unfoldable pub untar_first : Bytes → Result Bytes
untar_first bytes = untar_first_loop (suc (length bytes)) bytes 0

-- The loop of `untar_all`: what it pushes from an offset on.
unfoldable pub untar_all_loop : ℕ → Bytes → ℕ → Option Bytes → List (Bytes × Bytes)
untar_all_loop zero bytes off longname = []
untar_all_loop (suc fuel) bytes off longname =
    let hdr = slice off (off + 512) bytes in
    let size = field_size hdr in
    let off' = off + 512 in
    let body = slice off' (min (off' + size) (length bytes)) bytes in
    let next = off' + padded size in
    let renamed = untar_all_loop fuel bytes next (some (from_utf8_lossy (until_nul body))) in
    let pushed = (or_else longname (tar_name hdr), body) ∷ untar_all_loop fuel bytes next none in
    let skipped = untar_all_loop fuel bytes next longname in
    if leb (off + 512) (length bytes)
    then if all_zero hdr
      then []
      else if typeflag hdr == b'L'
      then renamed
      else if typeflag hdr == b'0' || typeflag hdr == 0
      then pushed
      else skipped
    else []

abbrev pub or_empty : List (Bytes × Bytes) → Result (List (Bytes × Bytes))
or_empty [] = bail "no regular file entry in tar"
or_empty (e ∷ es) = done (e ∷ es)

unfoldable pub untar_all : Bytes → Result (List (Bytes × Bytes))
untar_all bytes = or_empty (untar_all_loop (suc (length bytes)) bytes 0 none)
