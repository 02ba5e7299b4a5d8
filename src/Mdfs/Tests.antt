-- ===== src/Mdfs/Tests.antt =====
-- Runs of the file manager's text, transfer and archive functions, and its theorems at concrete inputs.
use pcsuite_rs.Base.{map}
use pcsuite_rs.Base.Text.{lower}
use pcsuite_rs.Base.{
  false, ◌-◌, bytes_eq, ℕ, ◌+◌, ◌^◌, ◌≡◌, refl, arith, List, [], ◌∷◌, ◌++◌, some, none, length, leb,
  replicate, All, inr,
}
use pcsuite_rs.Base.Wire.{Bytes, codes, position_of, position_from, starts_with}
use pcsuite_rs.Base.Result.{done}
use pcsuite_rs.Base.Text.{
  white_prefix, trim_start_loop, trim_start, trim_end, trim, split_once, split_loop, split, lines,
  digits_from, from_str_radix, to_hex, to_decimal,
}
use pcsuite_rs.Base.Utf8.{is_utf8, from_utf8_lossy}
use pcsuite_rs.Http
use pcsuite_rs.Mdfs.{image, parse, query_escape, fnv1a, fnv1a_from}
use pcsuite_rs.Mdfs.Transfer.{
  blank_line, find, http_reply_complete, dechunk, write, flush_buf, finish,
}
use pcsuite_rs.Mdfs.Transfer.Replies.{Framing, measured_by, http_reply_complete-Framing}
use pcsuite_rs.Mdfs.Transfer.Upload.{fresh, write_all, dechunk-finish}
use pcsuite_rs.Mdfs.Tar.{
  ustar_name, all_zero, until_nul, until_end, skip_spaces, trim_front, trim_back, tar_octal,
  tar_size, base256, tar_name, untar_all, or_empty,
}
use pcsuite_rs.Mdfs.Transfer.Download
use pcsuite_rs.Mdfs.Tar.Free.{unique_path-is_path}
use pcsuite_rs.Mdfs.Tar.Extract.{
  is_path, extract_tar_to_dir, extract_loop, entry, place, placed_entry, root_of, unique_path,
  first_free, numbered, split_stem, safe_parts, read_block, skip, Disk,
}
use pcsuite_rs.Mdfs.Tar.Archives.{Entry, IsEntry, IsEnd, archive, listed, untar_all-archive}

photo_kind : parse (codes "Photo") ≡ some image
unfolding parse bytes_eq
photo_kind = refl

unknown_kind : parse (codes "x") ≡ none
unfolding parse bytes_eq
unknown_kind = refl

-- The repository's own test of `query_escape`.
escaped : query_escape (codes "/a b" ++ (0xe4 ∷ 0xb8 ∷ 0xad ∷ [])) ≡ codes "/a%20b%E4%B8%AD"
unfolding query_escape
escaped = refl

hashed : fnv1a (codes "a") ≡ 0xe40c292c
unfolding fnv1a fnv1a_from
hashed = refl

-- The repository's own test of `ChunkedWriter`.
framed :
    finish (write_all fresh (codes "hello" ∷ codes " world" ∷ []))
    ≡ codes "b" ++ (13 ∷ 10 ∷ (codes "hello world" ++ (13 ∷ 10 ∷ 48 ∷ blank_line)))
unfolding finish write flush_buf to_hex
framed = refl

dechunk-finish_example :
    (dechunk (finish (write_all fresh (codes "hello" ∷ codes " world" ∷ []))) ≡ codes "hello world")
    × (Http.dechunk (finish (write_all fresh (codes "hello" ∷ codes " world" ∷ [])))
        ≡ done (codes "hello world"))
dechunk-finish_example = dechunk-finish (codes "hello" ∷ codes " world" ∷ []) (omega arith)

abbrev measured : Bytes
measured = codes "HTTP/1.1 200 OK\r\nContent-Length: 3\r\nContent-Length: 9"

-- The second length does not count.
measured-Framing :
    Framing (lines (map lower (from_utf8_lossy measured))) (λ body. leb 3 (length body))
unfolding lines split split_loop split_once from_utf8_lossy trim trim_start trim_start_loop trim_end
    white_prefix from_str_radix digits_from starts_with
measured-Framing =
    measured_by (codes "http/1.1 200 ok" ∷ []) (codes "content-length: 9" ∷ []) (codes " 3") 3 refl
      (refl, tt) refl

measured_ends : find (measured ++ blank_line) blank_line ≡ some (length measured)
unfolding find position_of position_from starts_with
measured_ends = refl

http_reply_complete-Framing_example :
    http_reply_complete (measured ++ (blank_line ++ codes "ab")) ≡ leb 3 2
http_reply_complete-Framing_example =
    http_reply_complete-Framing measured (codes "ab") (λ body. leb 3 (length body)) measured_ends
      measured-Framing

-- A header block with a name, a size in octal and a type.
abbrev header : Bytes → Bytes → ℕ → Bytes
header name size kind =
    name
    ++ (replicate (100 - length name) 0
        ++ (replicate 24 0 ++ (size ++ (0 ∷ (replicate 20 0 ++ (kind ∷ replicate 355 0))))))

abbrev small_archive : List Entry
small_archive =
    record { header = header (codes "d/") (codes "00000000000") b'5'; content = [] }
    ∷ record {
      header = header (codes "././@LongLink") (codes "00000000003") b'L';
      content = codes "b.c";
    }
    ∷ record { header = header (codes "b") (codes "00000000005") b'0'; content = codes "hello" }
    ∷ record { header = header (codes "e") (codes "00000000000") 0; content = [] }
    ∷ []

small_archive-IsEntry : All IsEntry small_archive
unfolding all_zero tar_octal until_end trim_front trim_back from_str_radix digits_from
small_archive-IsEntry = (
  record { block = refl; not_zero = refl; sized = refl },
  (
    record { block = refl; not_zero = refl; sized = refl },
    (
      record { block = refl; not_zero = refl; sized = refl },
      (record { block = refl; not_zero = refl; sized = refl }, tt),
    ),
  ),
)

zero_block : IsEnd (replicate 1024 0)
unfolding all_zero
zero_block = inr refl

untar_all-archive_example :
    untar_all (archive small_archive (replicate 1024 0)) ≡ or_empty (listed none small_archive)
untar_all-archive_example =
    untar_all-archive small_archive (replicate 1024 0) small_archive-IsEntry zero_block

small_listing : listed none small_archive ≡ (codes "b.c", codes "hello") ∷ (codes "e", []) ∷ []
unfolding until_nul from_utf8_lossy tar_name
small_listing = refl

octal_size : tar_size (codes "00000000144" ++ (0 ∷ [])) ≡ 100
unfolding tar_size until_end skip_spaces from_str_radix digits_from
octal_size = refl

base256_size : tar_size (0x80 ∷ (replicate 6 0 ++ (2 ∷ 0 ∷ 0 ∷ 0 ∷ 1 ∷ []))) ≡ 2 ^ 33 + 1
unfolding tar_size base256
base256_size = refl

abbrev taken_disk : Disk
taken_disk = record { existing = codes "out/b.c" ∷ []; files = [] }

-- An archive of a file whose name leads up and out of the directory.
abbrev up_archive : Bytes
up_archive =
    archive
      (record {
        header = header (codes "../../b.c") (codes "00000000005") b'0';
        content = codes "hello";
      }
        ∷ [])
      (replicate 1024 0)

-- A file that is there already is kept, and the new one gets the first free number.
extracted :
    extract_tar_to_dir
      (archive
        (record {
          header = header (codes "b.c") (codes "00000000005") b'0';
          content = codes "hello";
        }
          ∷ [])
        (replicate 1024 0))
      (record { existing = codes "out/b.c" ∷ []; files = [] })
      (codes "out")
    ≡ done (
      codes "out/b (1).c" ∷ [],
      record {
        existing = codes "out/b (1).c" ∷ codes "out/b (1).c" ∷ codes "out/b.c" ∷ [];
        files = (codes "out/b (1).c", codes "hello", 0) ∷ [];
      },
    )
unfolding extract_tar_to_dir extract_loop entry placed_entry place root_of unique_path first_free
    numbered split_stem safe_parts read_block skip all_zero until_nul until_end skip_spaces
    from_str_radix digits_from tar_size ustar_name from_utf8_lossy split split_loop split_once
    to_decimal bytes_eq
extracted = refl

-- The file of a name that leads up is written inside, under a free name.
up_extracted :
    extract_tar_to_dir up_archive taken_disk (codes "out")
    ≡ done (
      codes "out/b (1).c" ∷ [],
      record {
        existing = codes "out/b (1).c" ∷ codes "out/b (1).c" ∷ codes "out/b.c" ∷ [];
        files = (codes "out/b (1).c", codes "hello", 0) ∷ [];
      },
    )
unfolding extract_tar_to_dir extract_loop entry placed_entry place root_of unique_path first_free
    numbered split_stem safe_parts read_block skip all_zero until_nul until_end skip_spaces
    from_str_radix digits_from tar_size ustar_name from_utf8_lossy split split_loop split_once
    to_decimal bytes_eq
up_extracted = refl

unsafe_dropped : safe_parts (codes "../etc//./x") ≡ codes "etc" ∷ codes "x" ∷ []
unfolding safe_parts split split_loop split_once bytes_eq
unsafe_dropped = refl

abbrev chunked_bytes : Bytes
chunked_bytes = codes "2;x" ++ (13 ∷ 10 ∷ (codes "ab" ++ (13 ∷ 10 ∷ 48 ∷ blank_line)))

-- The first read gives one byte of the two that are asked for, for the inner reader has one ready.
first_read :
    Download.read (Download.start chunked_bytes) 2 1
    ≡ done (
      codes "a",
      record {
        inner = codes "b" ++ (13 ∷ 10 ∷ 48 ∷ blank_line);
        left = 1;
        trailing_crlf = false;
        ended = false;
      },
    )
unfolding Download.read Download.begin_chunk Download.skip_trailing Download.read_line
    Download.cut_line Download.read_chunk is_utf8 from_str_radix digits_from trim trim_start
    trim_start_loop trim_end white_prefix split_once
first_read = refl

unique_path-is_path_example :
    (p : Bytes) × (unique_path
        (codes "out/b.c" ∷ codes "out/b (1).c" ∷ [])
        (codes "out")
        (codes "b.c")
      ≡ some p)
    × (is_path (codes "out/b.c" ∷ codes "out/b (1).c" ∷ []) p ≡ false)
unique_path-is_path_example =
    unique_path-is_path (codes "out/b.c" ∷ codes "out/b (1).c" ∷ []) (codes "out") (codes "b.c")
      (omega arith)
