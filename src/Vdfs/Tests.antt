-- ===== src/Vdfs/Tests.antt =====
-- Runs of the vdfs wire format, and its theorems at concrete inputs.
use pcsuite_rs.Base.{◌≡◌, refl, arith, true, List, [], ◌∷◌, ◌++◌, none, some, replicate, All}
use pcsuite_rs.Base.Wire.{Bytes, codes, to_be, from_be}
use pcsuite_rs.Base.Utf8.{from_utf8_lossy, is_utf8}
use pcsuite_rs.Vdfs.{be16, be32, be64}
use pcsuite_rs.Vdfs.Request.{read_plaintext, parse_request, parse_read_body}
use pcsuite_rs.Vdfs.Stat.{Stat, parse_stat, stat_size, parse_stat_total}
use pcsuite_rs.Vdfs.Stat
use pcsuite_rs.Vdfs.Dirent.{DirEntry, parse_dirent_list, serialize_dirent_list, is_skipped}
use pcsuite_rs.Vdfs.Dirent.RoundTrip.{IsWritable, listed, parse_dirent_list-serialize_dirent_list}

abbrev tag : Bytes
tag = replicate 16 0xaa

abbrev photo : Bytes
photo = codes "52467a/storage/x.jpg"

-- The repository's own test of a READ request.
read_run :
    parse_request (read_plaintext 0x42 922286 16384 (codes "pc0000"))
    ≡ some (record { cmd = 6; size = 922286; offset = 16384; name = codes "pc0000" })
unfolding parse_request parse_read_body be32 be64 read_plaintext to_be from_be
read_run = refl

unknown_command : parse_request (replicate 22 0) ≡ none
unfolding parse_request
unknown_command = refl

-- The captured STAT response of the repository's test.
abbrev captured : Bytes
captured =
    replicate 14 0
    ++ (0x81 ∷ 0x80 ∷ 0 ∷ 0 ∷ 0 ∷ 0 ∷ 1 ∷ 0xf5 ∷ 0 ∷ 0 ∷ 0 ∷ 0x14 ∷ 0 ∷ 0 ∷ [])
    ++ (replicate 7 0 ++ (0x0e ∷ 0x12 ∷ 0xae ∷ []))
    ++ replicate 16 0
    ++ (0x6a ∷ 0x2f ∷ 0xd6 ∷ 0xa6 ∷ 0 ∷ 0 ∷ 0 ∷ 0 ∷ 0x6a ∷ 0x2f ∷ 0xd6 ∷ 0xa4 ∷ [])
    ++ replicate 8 0

captured_stat :
    parse_stat captured ≡ some (record { mode = 0o100600; size = 922286; mtime = 0x6a2fd6a4 })
unfolding parse_stat be32 be64 from_be
captured_stat = refl

captured_is_file :
    Stat.is_file (record { mode = 0o100600; size = 922286; mtime = 0x6a2fd6a4 }) ≡ true
unfolding Stat.is_file
captured_is_file = refl

abbrev entries : List DirEntry
entries =
    record { name = codes "."; d_type = 4 }
    ∷ record { name = codes ".."; d_type = 4 }
    ∷ record { name = codes "Camera"; d_type = 4 }
    ∷ record { name = 0xe6 ∷ 0x88 ∷ 0xaa ∷ []; d_type = 4 }
    ∷ record { name = codes "a.jpg"; d_type = 8 }
    ∷ []

entries-IsWritable : All IsWritable entries
unfolding is_utf8
entries-IsWritable = (
  record { short = omega arith; text = refl },
  (
    record { short = omega arith; text = refl },
    (
      record { short = omega arith; text = refl },
      (
        record { short = omega arith; text = refl },
        (record { short = omega arith; text = refl }, tt),
      ),
    ),
  ),
)

entries_run :
    parse_dirent_list (serialize_dirent_list entries)
    ≡ record { name = codes "Camera"; d_type = 4 }
      ∷ record { name = 0xe6 ∷ 0x88 ∷ 0xaa ∷ []; d_type = 4 }
      ∷ record { name = codes "a.jpg"; d_type = 8 }
      ∷ []
unfolding parse_dirent_list serialize_dirent_list from_utf8_lossy is_skipped be16 to_be from_be
entries_run = refl

parse_dirent_list-serialize_dirent_list_example :
    parse_dirent_list (serialize_dirent_list entries) ≡ listed entries
parse_dirent_list-serialize_dirent_list_example =
    parse_dirent_list-serialize_dirent_list entries entries-IsWritable
