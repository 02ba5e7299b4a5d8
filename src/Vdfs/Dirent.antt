-- ===== src/Vdfs/Dirent.antt =====
-- crates/pcsuite-proto/src/vdfs.rs: directory entries and their LIST serialisation.
pub mod RoundTrip
use pcsuite_rs.Base.{
  ℕ, zero, suc, ◌+◌, ◌%◌, ◌≡◌, Bool, true, false, ◌||◌, List, [], ◌∷◌, ◌++◌, Option, none, some,
  length, leb, if◌then◌else◌, ◌==◌, get_or, slice, is_empty, bytes_eq,
}
use pcsuite_rs.Base.Wire.{Bytes, codes, to_be}
use pcsuite_rs.Base.Outcome.{u16_mod}
use pcsuite_rs.Base.Utf8.{from_utf8_lossy}
use pcsuite_rs.Vdfs.{be16, dt_dir, dt_reg}

pub record DirEntry : Type 0 where
  pub name : Bytes
  pub d_type : ℕ

unfoldable pub is_dir : DirEntry → Bool
is_dir e = e.d_type == dt_dir

unfoldable pub is_file : DirEntry → Bool
is_file e = e.d_type == dt_reg

-- `HDR`
abbrev pub entry_header : ℕ
entry_header = 15

-- `name.is_empty() || name == "." || name == ".."`
unfoldable pub is_skipped : Bytes → Bool
unfolding bytes_eq
is_skipped name = is_empty name || bytes_eq name (codes ".") || bytes_eq name (codes "..")

abbrev pub keep : Bytes → ℕ → List DirEntry → List DirEntry
keep name d_type rest =
    if is_skipped name then rest else record { name = name; d_type = d_type } ∷ rest

-- The `while` loop, with fuel: what it pushes from position `i` on. `name_start + name_len` is far
-- below 2 ^ 64, so `checked_add` does not fail.
unfoldable pub dirent_loop : ℕ → Bytes → ℕ → List DirEntry
dirent_loop zero pt i = []
dirent_loop (suc fuel) pt i =
    if leb (i + entry_header) (length pt)
    then elim (be16 pt (i + 12)) [
      | none ↦ []
      | some name_len ↦
          let d_type = get_or pt (i + 14) 0 in
          let name_start = i + entry_header in
          let name_end = name_start + name_len in
          let rest = dirent_loop fuel pt (name_end + 1) in
          if leb name_end (length pt)
          then keep (from_utf8_lossy (slice name_start name_end pt)) d_type rest
          else []
    ]
    else []

-- A round takes at least 16 bytes, so a round for each byte is enough.
unfoldable pub parse_dirent_list : Bytes → List DirEntry
unfolding dirent_loop
parse_dirent_list pt = dirent_loop (length pt) pt 0

unfoldable pub serialize_entry : DirEntry → Bytes
serialize_entry e =
    to_be 4 0
    ++ (to_be 8 0 ++ (to_be 2 (length e.name % u16_mod) ++ (e.d_type ∷ (e.name ++ (0 ∷ [])))))

unfoldable pub serialize_dirent_list : List DirEntry → Bytes
unfolding serialize_entry
serialize_dirent_list [] = []
serialize_dirent_list (e ∷ es) = serialize_entry e ++ serialize_dirent_list es
