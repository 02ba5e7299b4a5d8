-- ===== src/Mdfs.antt =====
-- crates/pcsuite-core/src/mdfs.rs: the kinds of listings, and the small text functions of the routes.
pub mod Transfer
pub mod Tar
mod Tests
use pcsuite_rs.Base.{
  ℕ, zero, suc, ◌+◌, ◌*◌, ◌/◌, ◌%◌, ◌^◌, ◌<◌, ◌≡◌, ◌⊎◌, refl, Bool, true, false, ◌||◌, List, [],
  ◌∷◌, ◌++◌, map, Option, none, some, ltb, if◌then◌else◌, ◌==◌, bytes_eq, bit_xor,
}
use pcsuite_rs.Base.Wire.{Bytes, codes}
use pcsuite_rs.Base.Outcome.{u32_mod}
use pcsuite_rs.Base.Text.{in_range, lower}

pub data ListKind : Type 0 where
  recent image video audio file doc home : ListKind

abbrev pub one_of : Bytes → List Bytes → Bool
one_of s [] = false
one_of s (t ∷ ts) = bytes_eq s t || one_of s ts

-- `ListKind::parse`
unfoldable pub parse : Bytes → Option ListKind
parse s =
    let s = map lower s in
    if one_of s (codes "recent" ∷ codes "month" ∷ [] ∷ [])
    then some recent
    else if one_of s (codes "image" ∷ codes "images" ∷ codes "photo" ∷ codes "pic" ∷ [])
    then some image
    else if one_of s (codes "video" ∷ codes "videos" ∷ [])
    then some video
    else if one_of s (codes "audio" ∷ codes "audios" ∷ [])
    then some audio
    else if one_of s (codes "file" ∷ codes "files" ∷ [])
    then some file
    else if one_of s (codes "doc" ∷ codes "docs" ∷ codes "document" ∷ [])
    then some doc
    else if one_of s (codes "home" ∷ [])
    then some home
    else none

abbrev pub doc_types : Bytes
doc_types =
    codes "[PDF, DOC, XLS, PPT, TXT, VCF,IWORK,CAD, PSD, XMIND, "
    ++ (0xe5 ∷ 0x85 ∷ 0xb6 ∷ 0xe4 ∷ 0xbb ∷ 0x96 ∷ codes "]")

-- `(type, groupBy, sortCondition, data)`
unfoldable pub params : ListKind → Bytes × ℕ × ℕ × Bytes
params recent = (codes "REQUEST_POSTS_ONE_MOTH_LIST", 1, 5, [])
params image = (codes "REQUEST_POSTS_IMAGELIST", 1, 5, [])
params video = (codes "REQUEST_POSTS_VIDEOLIST", 0, 5, [])
params audio = (codes "REQUEST_POSTS_AUDIOLIST", 0, 5, [])
params file = (codes "REQUEST_POSTS_FILELIST", 0, 5, [])
params doc = (codes "REQUEST_POSTS_DOCSLIST", 5, 5, doc_types)
params home = (codes "REQUEST_POSTS_HOMEDATA", 0, 0, [])

abbrev pub is_kept : ℕ → Bool
is_kept b =
    in_range b'A' b'Z' b
    || in_range b'a' b'z' b
    || in_range b'0' b'9' b
    || b == b'-'
    || b == b'_'
    || b == b'.'
    || b == b'~'
    || b == b'/'

abbrev pub upper_hex_digit : ℕ → ℕ
upper_hex_digit d = if ltb d 10 then 48 + d else 55 + d

unfoldable pub query_escape : Bytes → Bytes
query_escape [] = []
query_escape (b ∷ bs) =
    let rest = query_escape bs in
    if is_kept b
    then b ∷ rest
    else b'%' ∷ upper_hex_digit (b / 16) ∷ upper_hex_digit (b % 16) ∷ rest

unfoldable pub fnv1a_from : ℕ → Bytes → ℕ
fnv1a_from h [] = h
fnv1a_from h (b ∷ bs) = fnv1a_from ((bit_xor h b * 0x01000193) % u32_mod) bs

unfoldable pub fnv1a : Bytes → ℕ
fnv1a bytes = fnv1a_from 0x811c9dc5 bytes
