-- ===== src/Mdfs/Tar/Archives.antt =====
-- crates/pcsuite-core/src/mdfs.rs: `untar_all` and `untar_first` against archives. An archive is
-- described by its entries, a header block and the data it announces, filled up to whole blocks.
use pcsuite_rs.Base.{
  ℕ, zero, suc, ◌+◌, ◌-◌, ◌<◌, ◌≤◌, ◌≡◌, refl, ap, sym, ◌∙◌, Bool, true, false, ◌&&◌, ◌||◌, List,
  [], ◌∷◌, ◌++◌, Option, none, some, length, ltb, leb, if◌then◌else◌, ◌==◌, take, drop, min, slice,
  replicate, arith, All, Bool-cases, inl, inr, ◌⊎◌, length-append, length-replicate, length-drop,
  take-append, drop-append, drop-append_add, drop-drop, le→leb, lt→leb_false,
}
use pcsuite_rs.Base.Wire.{Bytes}
use pcsuite_rs.Base.Utf8.{from_utf8_lossy}
use pcsuite_rs.Base.Maybe.{or_else}
use pcsuite_rs.Base.Result.{Result, done, bail}
use pcsuite_rs.Mdfs.Tar.{
  all_zero, until_nul, padded, field_size, typeflag, tar_name, untar_first_loop, untar_first,
  untar_all_loop, untar_all, or_empty,
}

pub record Entry : Type 0 where
  pub header : Bytes
  pub content : Bytes

pub record IsEntry (e : Entry) : Type 0 where
  pub block : length e.header ≡ 512
  pub not_zero : all_zero e.header ≡ false
  pub sized : field_size e.header ≡ length e.content

-- An archive ends with a zero block, or within a block.
abbrev pub IsEnd : Bytes → Type 0
IsEnd bs = (length bs < 512) ⊎ (all_zero (take 512 bs) ≡ true)

abbrev pub filler : ℕ → Bytes
filler n = replicate (padded n - n) 0

abbrev pub archive : List Entry → Bytes → Bytes
archive [] end = end
archive (e ∷ es) end = e.header ++ (e.content ++ (filler (length e.content) ++ archive es end))

abbrev pub is_regular : Bytes → Bool
is_regular hdr = typeflag hdr == b'0' || typeflag hdr == 0

-- The regular entries with their names: a GNU long name renames the next one.
abbrev pub listed : Option Bytes → List Entry → List (Bytes × Bytes)
listed longname [] = []
listed longname (e ∷ es) =
    let renamed = listed (some (from_utf8_lossy (until_nul e.content))) es in
    let pushed = (or_else longname (tar_name e.header), e.content) ∷ listed none es in
    let skipped = listed longname es in
    if typeflag e.header == b'L' then renamed else if is_regular e.header then pushed else skipped

-- The first regular entry that is not empty.
abbrev pub first_regular : List Entry → Result Bytes
first_regular [] = bail "no regular file entry in tar"
first_regular (e ∷ es) =
    let next = first_regular es in
    if is_regular e.header && ltb 0 (length e.content) then done e.content else next

-- Reading an entry at an offset behind which the rest of the archive stands.
record AtEntry (e : Entry) (rest bytes : Bytes) (off : ℕ) : Type 0 where
  fits : leb (off + 512) (length bytes) ≡ true
  header : slice off (off + 512) bytes ≡ e.header
  body : slice (off + 512) (min (off + 512 + length e.content) (length bytes)) bytes ≡ e.content
  next : drop (off + 512 + padded (length e.content)) bytes ≡ rest
  within : off + 512 + padded (length e.content) ≤ length bytes

length-filler : (n : ℕ) → n + length (filler n) ≡ padded n
length-filler n = omega (arith, length-replicate {A = ℕ} (padded n - n) 0)

at_entry :
    (e : Entry) (rest bytes : Bytes) (off : ℕ)
    → IsEntry e
    → drop off bytes ≡ e.header ++ (e.content ++ (filler (length e.content) ++ rest))
    → off ≤ length bytes
    → AtEntry e rest bytes off
at_entry e rest bytes off h at inside =
    let n : ℕ = length e.content in
    let pad = filler n in
    let tail = e.content ++ (pad ++ rest) in
    let len : length bytes - off ≡ 512 + (n + (length pad + length rest)) = omega (
      arith,
      length-drop off bytes,
      ap length at,
      length-append e.header tail,
      length-append e.content (pad ++ rest),
      length-append pad rest,
      h.block,
    ) in
    let whole = length-filler n in
    let behind : drop (off + 512) bytes ≡ tail =
      sym (drop-drop off 512 bytes) ∙ ap (drop 512) at ∙ drop-append 512 e.header tail h.block in
    let k : off + 512 - off ≡ 512 = omega arith in
    let m : min (off + 512 + n) (length bytes) - (off + 512) ≡ n = omega (arith, len, inside) in
    record {
      fits = le→leb (off + 512) (length bytes) (omega (arith, len, inside));
      header = rw (k, at) (take-append 512 e.header tail h.block);
      body = rw (m, behind) (take-append n e.content (pad ++ rest) refl);
      next =
          sym (drop-drop (off + 512) (padded n) bytes)
          ∙ ap (drop (padded n)) behind
          ∙ (ap (λ p. drop p tail) (sym whole)
              ∙ drop-append_add n (length pad) e.content (pad ++ rest) refl
              ∙ drop-append (length pad) pad rest refl);
      within = omega (arith, len, inside, whole);
    }

-- The loop stops where the archive ends.
record Stops (bytes : Bytes) (off : ℕ) : Type 0 where
  stops : (leb (off + 512) (length bytes) ≡ false) ⊎ (all_zero (slice off (off + 512) bytes) ≡ true)

at_end :
    (bytes end : Bytes) (off : ℕ)
    → IsEnd end
    → drop off bytes ≡ end
    → off ≤ length bytes
    → Stops bytes off
at_end bytes end off (inl short) at inside = record {
  stops = inl (
      lt→leb_false (off + 512) (length bytes) (omega (arith, length-drop off bytes, ap length at)));
}
at_end bytes end off (inr zeros) at inside =
    let k : off + 512 - off ≡ 512 = omega arith in
    record {
      stops = inr (
          ap (λ n. all_zero (take n (drop off bytes))) k
          ∙ ap (λ d. all_zero (take 512 d)) at
          ∙ zeros);
    }

untar_all_loop-Stops :
    (fuel : ℕ) (bytes : Bytes) (off : ℕ) (longname : Option Bytes)
    → Stops bytes off
    → untar_all_loop (suc fuel) bytes off longname ≡ []
unfolding untar_all_loop
untar_all_loop-Stops fuel bytes off longname s = elim (s.stops) [
  | inl short ↦ rw (untar_all_loop, short)
  | inr zeros ↦ elim (Bool-cases (leb (off + 512) (length bytes))) [
    | inl long ↦ rw (untar_all_loop, long, zeros)
    | inr short ↦ rw (untar_all_loop, short)
  ]
]

-- One round at an entry.
untar_all_loop-entry :
    (fuel : ℕ) (e : Entry) (rest bytes : Bytes) (off : ℕ) (longname : Option Bytes)
    → IsEntry e
    → AtEntry e rest bytes off
    → untar_all_loop (suc fuel) bytes off longname ≡ (
        let next = off + 512 + padded (length e.content) in
        if typeflag e.header == b'L'
        then untar_all_loop fuel bytes next (some (from_utf8_lossy (until_nul e.content)))
        else if is_regular e.header
        then (or_else longname (tar_name e.header), e.content) ∷ untar_all_loop fuel bytes next none
        else untar_all_loop fuel bytes next longname)
unfolding untar_all_loop
untar_all_loop-entry fuel e rest bytes off longname h a =
    rw (untar_all_loop, a.fits, a.header, h.not_zero, h.sized, a.body)

untar_all_loop-archive :
    (fuel : ℕ) (es : List Entry) (end bytes : Bytes) (off : ℕ) (longname : Option Bytes)
    → All IsEntry es
    → IsEnd end
    → drop off bytes ≡ archive es end
    → off ≤ length bytes
    → length bytes < off + fuel
    → untar_all_loop fuel bytes off longname ≡ listed longname es
untar_all_loop-archive zero es end bytes off longname h stop at inside f = absurd (omega arith)
untar_all_loop-archive (suc fuel) [] end bytes off longname h stop at inside f =
    untar_all_loop-Stops fuel bytes off longname (at_end bytes end off stop at inside)
untar_all_loop-archive (suc fuel) (e ∷ es) end bytes off longname (h, hs) stop at inside f =
    let a = at_entry e (archive es end) bytes off h at inside in
    let next = off + 512 + padded (length e.content) in
    let ih = λ (ln : Option Bytes).
      untar_all_loop-archive fuel es end bytes next ln hs stop a.next a.within (omega (arith, f)) in
    untar_all_loop-entry fuel e (archive es end) bytes off longname h a
    ∙ rw (ih (some (from_utf8_lossy (until_nul e.content))), ih none, ih longname)

-- Every regular entry of an archive is extracted in order, with its whole content, under its GNU long
-- name where one stands before it; entries of other kinds are skipped with their data. Without a regular
-- entry the extraction fails.
pub untar_all-archive :
    (es : List Entry) (end : Bytes)
    → All IsEntry es
    → IsEnd end
    → untar_all (archive es end) ≡ or_empty (listed none es)
unfolding untar_all
untar_all-archive es end h stop =
    let bytes = archive es end in
    ap or_empty (
      untar_all_loop-archive (suc (length bytes)) es end bytes 0 none h stop refl (omega arith)
        (omega arith))

untar_first_loop-Stops :
    (fuel : ℕ) (bytes : Bytes) (off : ℕ)
    → Stops bytes off
    → untar_first_loop (suc fuel) bytes off ≡ bail "no regular file entry in tar"
unfolding untar_first_loop
untar_first_loop-Stops fuel bytes off s = elim (s.stops) [
  | inl short ↦ rw (untar_first_loop, short)
  | inr zeros ↦ elim (Bool-cases (leb (off + 512) (length bytes))) [
    | inl long ↦ rw (untar_first_loop, long, zeros)
    | inr short ↦ rw (untar_first_loop, short)
  ]
]

untar_first_loop-archive :
    (fuel : ℕ) (es : List Entry) (end bytes : Bytes) (off : ℕ)
    → All IsEntry es
    → IsEnd end
    → drop off bytes ≡ archive es end
    → off ≤ length bytes
    → length bytes < off + fuel
    → untar_first_loop fuel bytes off ≡ first_regular es
unfolding untar_first_loop
untar_first_loop-archive zero es end bytes off h stop at inside f = absurd (omega arith)
untar_first_loop-archive (suc fuel) [] end bytes off h stop at inside f =
    untar_first_loop-Stops fuel bytes off (at_end bytes end off stop at inside)
untar_first_loop-archive (suc fuel) (e ∷ es) end bytes off (h, hs) stop at inside f =
    let a = at_entry e (archive es end) bytes off h at inside in
    let next = off + 512 + padded (length e.content) in
    rw (
      untar_first_loop,
      a.fits,
      a.header,
      h.not_zero,
      h.sized,
      a.body,
      untar_first_loop-archive fuel es end bytes next hs stop a.next a.within (omega (arith, f)),
    )

-- The first regular entry of an archive that is not empty is extracted whole; without one the
-- extraction fails.
pub untar_first-archive :
    (es : List Entry) (end : Bytes)
    → All IsEntry es
    → IsEnd end
    → untar_first (archive es end) ≡ first_regular es
unfolding untar_first
untar_first-archive es end h stop =
    untar_first_loop-archive (suc (length (archive es end))) es end (archive es end) 0 h stop refl
      (omega arith) (omega arith)
