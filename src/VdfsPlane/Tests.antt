-- ===== src/VdfsPlane/Tests.antt =====
-- Runs of the file plane on a small file system, and its theorems at concrete inputs: a network that
-- hands over each reply in pieces of three bytes, and the toy ciphers of `Crypto.Toy`.
use pcsuite_rs.Base.{
  ◌==◌, ◌||◌, ◌^◌, ◌<◌, ◌≡◌, refl, ap, Bool, true, false, List, [], ◌∷◌, ◌++◌, Option, none, some,
  length, arith, All, replicate,
}
use pcsuite_rs.Base.Streams.{Read, failed, IsNonempty, concat, arrivals}
use pcsuite_rs.Base.Wire.{Bytes, codes, to_be, starts_with}
use pcsuite_rs.Base.Utf8.{is_utf8, from_utf8_lossy}
use pcsuite_rs.Base.Result.{Result, done, bail}
use pcsuite_rs.Crypto.Gcm.{gcm12_seal}
use pcsuite_rs.Crypto.Toy.{toy, toy-Laws}
use pcsuite_rs.Vdfs.Stat.{Stat, parse_stat}
use pcsuite_rs.Vdfs.Stat
use pcsuite_rs.Vdfs.Dirent.{serialize_dirent_list, serialize_entry}
use pcsuite_rs.Vdfs.Dirent.RoundTrip.{IsWritable, listed}
use pcsuite_rs.VdfsPlane.{FileSystem, Metadata, dir, file}
use pcsuite_rs.VdfsPlane.Server.{
  build_stat_response, name_to_path, has_double, halve_slashes, collapse_loop, serve_conn,
  list_local_dir,
}
use pcsuite_rs.VdfsPlane.Server.Paths.{NoBackslash}
use pcsuite_rs.VdfsPlane.Server.StatReply.{parse_stat-build_stat_response}
use pcsuite_rs.VdfsPlane.Client.{Network, fetch, list_dir}
use pcsuite_rs.VdfsPlane.Loopback.Fetch.{Carries, Seals, fetch-serve_conn}
use pcsuite_rs.VdfsPlane.Loopback.Listing.{list_dir-serve_conn}

abbrev key : Bytes
key = replicate 32 0x30

abbrev iv : Bytes
iv = replicate 16 0x41

abbrev photo : Bytes
photo = codes "/sdcard/a.jpg"

abbrev photo_bytes : Bytes
photo_bytes = codes "JFIF0123"

abbrev photo_metadata : Metadata
photo_metadata = record { is_dir = false; len = 8; modified = some 1718605478 }

-- A file system in which every name is the photo, and a directory that holds it.
abbrev disk : FileSystem
disk = record {
  metadata = λ path. some photo_metadata;
  read_dir = λ path. some ((codes ".", dir) ∷ (codes "a.jpg", file) ∷ []);
  contents = λ path. some photo_bytes;
}

-- Every byte of a reply in a read of its own, then a timeout.
abbrev bytewise : Bytes → List Bytes
bytewise [] = []
bytewise (b ∷ bs) = (b ∷ []) ∷ bytewise bs

abbrev reply_of : Result Bytes → Option (List Read)
reply_of (done reply) = some (arrivals (bytewise reply) (failed ∷ []))
reply_of (bail e) = none

abbrev loopback : Network
loopback frame = reply_of (serve_conn toy disk key iv (codes "pc") frame)

bytewise-IsNonempty : (bs : Bytes) → All IsNonempty (bytewise bs)
bytewise-IsNonempty [] = tt
bytewise-IsNonempty (b ∷ bs) = (refl, bytewise-IsNonempty bs)

concat-bytewise : (bs : Bytes) → concat (bytewise bs) ≡ bs
concat-bytewise [] = refl
concat-bytewise (b ∷ bs) = ap (◌∷◌ b) (concat-bytewise bs)

loopback-Carries : Carries toy disk key iv (codes "pc") loopback
loopback-Carries frame reply e =
    (bytewise reply, failed ∷ [], bytewise-IsNonempty reply, concat-bytewise reply, rw e)

toy-Seals : Seals toy key iv
unfolding gcm12_seal
toy-Seals plain = (_, _, refl)

parse_stat-build_stat_response_example :
    (length (build_stat_response disk photo) ≡ 74)
    × ((st : Stat) × (parse_stat (build_stat_response disk photo) ≡ some st)
        × (st.size ≡ 8)
        × (st.mtime ≡ 1718605478)
        × (Stat.is_dir st ≡ false)
        × (Stat.is_file st ≡ true))
parse_stat-build_stat_response_example =
    parse_stat-build_stat_response disk photo photo_metadata refl (omega arith) (omega arith)

windows_path : name_to_path (codes "pc\\sdcard\\\\a.jpg") (codes "pc") ≡ photo
unfolding name_to_path collapse_loop starts_with has_double halve_slashes
windows_path = refl

has_backslash : Bytes → Bool
has_backslash [] = false
has_backslash (c ∷ cs) = c == b'\\' || has_backslash cs

has_backslash-NoBackslash : (bs : Bytes) → has_backslash bs ≡ false → NoBackslash bs
unfolding has_backslash
has_backslash-NoBackslash [] h = tt
has_backslash-NoBackslash (c ∷ cs) h =
    (λ e. ground arith, has_backslash-NoBackslash cs (ground arith))

photo-NoBackslash : NoBackslash photo
unfolding has_backslash
photo-NoBackslash = has_backslash-NoBackslash photo refl

photo_single : has_double photo ≡ false
unfolding has_double
photo_single = refl

photo_text : is_utf8 (codes "pc" ++ photo) ≡ true
unfolding is_utf8
photo_text = refl

fetch-serve_conn_example : fetch toy loopback key iv (codes "pc") photo ≡ done photo_bytes
fetch-serve_conn_example =
    fetch-serve_conn toy toy-Laws disk key iv (codes "pc") loopback toy-Seals loopback-Carries photo
      photo_text (omega arith) photo_single photo-NoBackslash photo_metadata refl (omega arith)
      (omega arith) photo_bytes refl (omega arith) refl

entries-IsWritable : All IsWritable (list_local_dir disk photo)
unfolding list_local_dir from_utf8_lossy is_utf8
entries-IsWritable =
    (record { short = omega arith; text = refl }, (record { short = omega arith; text = refl }, tt))

listing_short : length (serialize_dirent_list (list_local_dir disk photo)) < 2 ^ 31
unfolding list_local_dir from_utf8_lossy serialize_dirent_list serialize_entry to_be
listing_short = omega arith

list_dir-serve_conn_example :
    list_dir toy loopback key iv (codes "pc") photo ≡ done (listed (list_local_dir disk photo))
list_dir-serve_conn_example =
    list_dir-serve_conn toy toy-Laws disk key iv (codes "pc") loopback toy-Seals loopback-Carries
      photo photo_text (omega arith) photo_single photo-NoBackslash entries-IsWritable listing_short
