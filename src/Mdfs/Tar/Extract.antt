-- ===== src/Mdfs/Tar/Extract.antt =====
-- crates/pcsuite-core/src/mdfs.rs: `extract_tar_to_dir`. The source is the bytes of the archive, the disk
-- the paths that exist on it and the files that were written; it takes every write. Sizes are below
-- 2^63, so that the padded size does not wrap.
use pcsuite_rs.Base.{
  ℕ, zero, suc, ◌+◌, ◌-◌, ◌%◌, ◌^◌, Bool, false, not, ◌&&◌, ◌||◌, List, [], ◌∷◌, ◌++◌, Option, none,
  some, length, ltb, if◌then◌else◌, ◌==◌, take, drop, slice, is_empty, bytes_eq,
}
use pcsuite_rs.Base.Wire.{Bytes, codes}
use pcsuite_rs.Base.Text.{split, to_decimal}
use pcsuite_rs.Base.Utf8.{from_utf8_lossy}
use pcsuite_rs.Base.Maybe.{or_else}
use pcsuite_rs.Base.Result.{Result, done, bail, ◌>>=◌}
use pcsuite_rs.Mdfs.Tar.{all_zero, until_nul, padded, typeflag, tar_size, ustar_name, pax_path}

-- `Ok(false)` at EOF before a byte, else the block and what is left.
unfoldable pub read_block : Bytes → Result (Option (Bytes × Bytes))
read_block src =
    if is_empty src
    then done none
    else if ltb (length src) 512
    then bail "unexpected end of file"
    else done (some (take 512 src, drop 512 src))

unfoldable pub skip : ℕ → Bytes → Result Bytes
skip n src =
    if ltb (length src) n then bail "tar stream ended inside padding" else done (drop n src)

abbrev pub join : Bytes → Bytes → Bytes
join dir name = dir ++ (b'/' ∷ name)

abbrev pub is_path : List Bytes → Bytes → Bool
is_path [] p = false
is_path (q ∷ qs) p = bytes_eq q p || is_path qs p

-- The stem and the extension: the text from the last dot on, unless that is the first character.
unfoldable pub split_stem : Bytes → Bytes × Bytes
split_stem [] = ([], [])
split_stem (b ∷ bs) =
    let (stem, ext) = split_stem bs in
    let whole : Bytes × Bytes = (b ∷ bs, []) in
    let here : Bytes × Bytes = ([], b ∷ bs) in
    if is_empty ext then if b == b'.' then here else whole else (b ∷ stem, ext)

abbrev pub stem_ext : Bytes → Bytes × Bytes
stem_ext name =
    let (stem, ext) = split_stem name in if is_empty stem then (name, []) else (stem, ext)

-- `{n}` of an `i32`, of which `n` is the bit pattern.
abbrev pub i32_text : ℕ → Bytes
i32_text n = if ltb n (2 ^ 31) then to_decimal n else b'-' ∷ to_decimal (2 ^ 32 - n)

unfoldable pub numbered : Bytes → Bytes → ℕ → Bytes
numbered dir name n =
    let (stem, ext) = stem_ext name in
    join dir (stem ++ (codes " (" ++ (i32_text n ++ (codes ")" ++ ext))))

-- `(1..)` counts in an `i32`, which wraps; a build that checks overflow panics at 2^31 instead. Nothing
-- if the numbers of all the rounds are taken.
unfoldable pub first_free : ℕ → List Bytes → Bytes → Bytes → ℕ → Option Bytes
first_free zero existing dir name n = none
first_free (suc fuel) existing dir name n =
    let next = first_free fuel existing dir name ((n + 1) % 2 ^ 32) in
    if is_path existing (numbered dir name n) then next else some (numbered dir name n)

-- A round for each path and one more: of more numbers than there are paths one is free, while there are
-- that many numbers. Nothing is a search that comes back to its first number and does not end.
unfoldable pub unique_path : List Bytes → Bytes → Bytes → Option Bytes
unique_path existing dir name =
    if is_path existing (join dir name)
    then first_free (suc (length existing)) existing dir name 1
    else some (join dir name)

abbrev pub is_safe : Bytes → Bool
is_safe c = not (is_empty c) && not (bytes_eq c (codes ".")) && not (bytes_eq c (codes ".."))

abbrev pub keep_safe : List Bytes → List Bytes
keep_safe [] = []
keep_safe (c ∷ cs) = if is_safe c then c ∷ keep_safe cs else keep_safe cs

-- `name.split('/').filter(…)`
unfoldable pub safe_parts : Bytes → List Bytes
safe_parts name = keep_safe (split b'/' name)

pub record Disk : Type 0 where
  pub existing : List Bytes
  -- Path, content and modification time of the files that were written.
  pub files : List (Bytes × Bytes × ℕ)

pub record Extraction : Type 0 where
  pub src : Bytes
  pub disk : Disk
  pub top : List (Bytes × Bytes)
  pub created : List Bytes
  pub long_name : Option Bytes

abbrev pub lookup : List (Bytes × Bytes) → Bytes → Option Bytes
lookup [] key = none
lookup ((k, v) ∷ kvs) key = if bytes_eq k key then some v else lookup kvs key

abbrev pub entered : Extraction → Bytes → Bytes → Extraction
entered e first p = record {
  src = e.src;
  disk = e.disk;
  top = (first, p) ∷ e.top;
  created = e.created ++ (p ∷ []);
  long_name = e.long_name;
}

-- `top.entry(first).or_insert_with(…)`: the root of the entry and the state with it. A search for a free
-- path that does not end is an error here.
unfoldable pub root_of : Bytes → Extraction → Bytes → Result (Bytes × Extraction)
root_of out_dir e first = elim (lookup e.top first) [
  | some root ↦ done (root, e)
  | none ↦ elim (unique_path e.disk.existing out_dir first) [
    | some p ↦ done (p, entered e first p)
    | none ↦ bail "unbounded range"
  ]
]

abbrev pub fold_join : Bytes → List Bytes → Bytes
fold_join p [] = p
fold_join p (c ∷ cs) = fold_join (join p c) cs

-- The path and those above it, from a root down.
abbrev pub dirs_down : Bytes → List Bytes → List Bytes
dirs_down p [] = p ∷ []
dirs_down p (c ∷ cs) = p ∷ dirs_down (join p c) cs

abbrev pub but_last : List Bytes → List Bytes
but_last [] = []
but_last (c ∷ []) = []
but_last (c ∷ (d ∷ cs)) = c ∷ but_last (d ∷ cs)

abbrev pub with_src : Extraction → Bytes → Option Bytes → Extraction
with_src e src long_name = record {
  src = src;
  disk = e.disk;
  top = e.top;
  created = e.created;
  long_name = long_name;
}

abbrev pub with_disk : Extraction → Disk → Extraction
with_disk e disk = record {
  src = e.src;
  disk = disk;
  top = e.top;
  created = e.created;
  long_name = e.long_name;
}

-- The arm of the long names and the pax records.
unfoldable pub extension_entry : ℕ → ℕ → Extraction → Result Extraction
extension_entry flag size e = do
  let meta = take size e.src
  src ← skip (padded size - size) (drop size e.src)
  let pax : Option Bytes = elim (pax_path meta) [ some path ↦ some path | none ↦ e.long_name ]
  done (with_src e src (if flag == b'L' then some (from_utf8_lossy (until_nul meta)) else pax))

-- A directory or file below its root, with the components behind the first.
unfoldable pub place : Bytes → ℕ → List Bytes → Bytes → Extraction → Result Extraction
place hdr size rest root e =
    let dest = fold_join root rest in
    let dirs : Disk = record {
      existing = dirs_down root rest ++ e.disk.existing;
      files = e.disk.files;
    } in
    let written : Disk = record {
      existing = dest ∷ (dirs_down root (but_last rest) ++ e.disk.existing);
      files = e.disk.files ++ ((dest, take size e.src, tar_size (slice 136 148 hdr)) ∷ []);
    } in
    if typeflag hdr == b'5'
    then done (with_disk e dirs)
    else if ltb (length e.src) size
    then bail "stream ended inside a file"
    else (do
      src ← skip (padded size - size) (drop size e.src)
      done (with_src (with_disk e written) src e.long_name))

unfoldable pub placed_entry :
    Bytes → Bytes → ℕ → Bytes → List Bytes → Extraction → Result Extraction
placed_entry out_dir hdr size first rest e = do
  (root, e') ← root_of out_dir e first
  place hdr size rest root e'

abbrev pub is_extension : ℕ → Bool
is_extension flag = flag == b'L' || flag == b'x'

abbrev pub is_placed : ℕ → Bool
is_placed flag = flag == b'5' || flag == b'0' || flag == 0 || flag == b'7'

-- An entry whose header has been read.
unfoldable pub entry : Bytes → Bytes → Extraction → Result Extraction
entry out_dir hdr e =
    let size = tar_size (slice 124 136 hdr) in
    let name = or_else e.long_name (ustar_name hdr) in
    let taken = with_src e e.src none in
    let skipped = (do src ← skip (padded size) e.src; done (with_src e src none)) in
    if is_extension (typeflag hdr)
    then extension_entry (typeflag hdr) size e
    else if is_placed (typeflag hdr)
    then elim (safe_parts name) [
      | [] ↦ if typeflag hdr == b'5' then done taken else skipped
      | first ∷ rest ↦ placed_entry out_dir hdr size first rest taken
    ]
    else skipped

-- The loop, with fuel.
unfoldable pub extract_loop : ℕ → Bytes → Extraction → Result Extraction
extract_loop zero out_dir e = done e
extract_loop (suc fuel) out_dir e = do
  block ← read_block e.src
  elim block [
    | none ↦ done e
    | some (hdr, src) ↦
        let rest = (do
          e' ← entry out_dir hdr (with_src e src e.long_name)
          extract_loop fuel out_dir e') in
        if all_zero hdr then done e else rest
  ]

abbrev pub or_bail : Extraction → Result (List Bytes × Disk)
or_bail e = if is_empty e.created then bail "download tar was empty" else done (e.created, e.disk)

-- Each round takes a block, so a round for each byte and a last one are enough.
unfoldable pub extract_tar_to_dir : Bytes → Disk → Bytes → Result (List Bytes × Disk)
extract_tar_to_dir src disk out_dir = do
  e ←
      extract_loop (suc (length src)) out_dir
        (record { src = src; disk = disk; top = []; created = []; long_name = none })
  or_bail e
