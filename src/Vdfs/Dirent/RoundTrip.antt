-- ===== src/Vdfs/Dirent/RoundTrip.antt =====
-- `parse_dirent_list` against `serialize_dirent_list`: crates/pcsuite-proto/src/vdfs.rs.
use pcsuite_rs.Base.{
  ℕ, zero, suc, ◌+◌, ◌-◌, ◌%◌, ◌^◌, ◌≤◌, ◌<◌, ◌≡◌, refl, ap, sym, ◌∙◌, true, List, [], ◌∷◌, ◌++◌,
  some, length, arith, length-append, le→leb, lt→leb_false, Option-cases, inl, inr, get_range?-some,
  take-append, drop-append, drop-append_add, slice, All, append_assoc, get_or, get_or-drop, drop,
}
use pcsuite_rs.Base.Wire.{Bytes, to_be, length-to_be, from_be-to_be}
use pcsuite_rs.Base.Outcome.{u16_mod}
use pcsuite_rs.Base.Utf8.{is_utf8, from_utf8_lossy-valid}
use pcsuite_rs.Vdfs.{be16}
use pcsuite_rs.Vdfs.Dirent.{
  DirEntry, keep, dirent_loop, parse_dirent_list, serialize_entry, serialize_dirent_list,
}

-- The entries whose name is text of less than 2 ^ 16 bytes.
pub record IsWritable (e : DirEntry) : Type 0 where
  pub short : length e.name < 2 ^ 16
  pub text : is_utf8 e.name ≡ true

-- What a listing shows: all entries but `.`, `..` and the nameless.
abbrev pub listed : List DirEntry → List DirEntry
listed [] = []
listed (e ∷ es) = keep e.name e.d_type (listed es)

abbrev entry_size : DirEntry → ℕ
entry_size e = 16 + length e.name

-- The bytes of an entry behind its two reserved words.
abbrev entry_tail : DirEntry → Bytes
entry_tail e = to_be 2 (length e.name % u16_mod) ++ (e.d_type ∷ (e.name ++ (0 ∷ [])))

length-entry_tail : (e : DirEntry) → length (entry_tail e) ≡ 4 + length e.name
length-entry_tail e = omega (
  arith,
  length-append (to_be 2 (length e.name % u16_mod)) (e.d_type ∷ (e.name ++ (0 ∷ []))),
  length-to_be 2 (length e.name % u16_mod),
  length-append e.name (0 ∷ []),
)

length-serialize_entry : (e : DirEntry) → length (serialize_entry e) ≡ entry_size e
unfolding serialize_entry
length-serialize_entry e = omega (
  arith,
  length-append (to_be 4 0) (to_be 8 0 ++ entry_tail e),
  length-append (to_be 8 0) (entry_tail e),
  length-to_be 4 0,
  length-to_be 8 0,
  length-entry_tail e,
)

-- The fields of one entry, read from a buffer in which it starts at the end of `before`.
module _ (before : Bytes) (e : DirEntry) (rest : Bytes) (w : IsWritable e) where
  abbrev buf : Bytes
  buf = before ++ (serialize_entry e ++ rest)

  length-buf : length buf ≡ length before + (entry_size e + length rest)
  length-buf = omega (
    arith,
    length-append before (serialize_entry e ++ rest),
    length-append (serialize_entry e) rest,
    length-serialize_entry e,
  )

  to_entry : (i : ℕ) → drop (length before + (4 + (8 + i))) buf ≡ drop i (entry_tail e ++ rest)
  unfolding serialize_entry
  to_entry i =
      drop-append_add (length before) (4 + (8 + i)) before _ refl
      ∙ rw (append_assoc, append_assoc)
          (drop-append_add 4 (8 + i) (to_be 4 0) _ (length-to_be 4 0)
            ∙ drop-append_add 8 i (to_be 8 0) _ (length-to_be 8 0))

  to_name : drop 3 (entry_tail e ++ rest) ≡ (e.name ++ (0 ∷ [])) ++ rest
  to_name =
      rw append_assoc (drop-append_add 2 1 (to_be 2 (length e.name % u16_mod)) _ (length-to_be 2 _))

  name_len_read : be16 buf (length before + 12) ≡ some (length e.name)
  unfolding be16
  name_len_read =
      let two : length before + 12 + 2 - (length before + 12) ≡ 2 = omega arith in
      let at = length before + 12 in
      rw
        (
          get_range?-some at (at + 2) buf (omega arith) (omega (arith, length-buf)),
          two,
          to_entry 0,
          append_assoc (to_be 2 (length e.name % u16_mod)) (e.d_type ∷ (e.name ++ (0 ∷ []))) rest,
          take-append 2 (to_be 2 (length e.name % u16_mod))
              ((e.d_type ∷ (e.name ++ (0 ∷ []))) ++ rest)
              (length-to_be 2 (length e.name % u16_mod)),
          from_be-to_be 2 (length e.name % u16_mod) (omega arith),
        )
        (ap some (omega (arith, w.short)))

  type_read : get_or buf (length before + 14) 0 ≡ e.d_type
  type_read =
      get_or-drop (length before + 14) buf 0
      ∙ rw (
        to_entry 2,
        append_assoc (to_be 2 (length e.name % u16_mod)) (e.d_type ∷ (e.name ++ (0 ∷ []))) rest,
        drop-append 2 (to_be 2 (length e.name % u16_mod))
            ((e.d_type ∷ (e.name ++ (0 ∷ []))) ++ rest) (length-to_be 2 (length e.name % u16_mod)),
      )

  name_read : slice (length before + 15) (length before + 15 + length e.name) buf ≡ e.name
  name_read =
      let n : length before + 15 + length e.name - (length before + 15) ≡ length e.name =
        omega arith in
      rw (n, to_entry 3, to_name, append_assoc e.name (0 ∷ []) rest)
        (take-append (length e.name) e.name _ refl)

  -- One round of the loop.
  dirent_loop-entry :
      (fuel : ℕ)
      → dirent_loop (suc fuel) buf (length before)
        ≡ keep e.name e.d_type (dirent_loop fuel buf (length before + entry_size e))
  unfolding dirent_loop
  dirent_loop-entry fuel =
      let next : length before + 15 + length e.name + 1 ≡ length before + entry_size e =
        omega arith in
      rw (
        le→leb (length before + 15) (length buf) (omega (arith, length-buf)),
        name_len_read,
        le→leb (length before + 15 + length e.name) (length buf) (omega (arith, length-buf)),
        name_read,
        from_utf8_lossy-valid e.name w.text,
        type_read,
        next,
      )

-- The loop ends where no entry header is left.
dirent_loop_end : (fuel : ℕ) (pt : Bytes) (i : ℕ) → length pt < i + 15 → dirent_loop fuel pt i ≡ []
unfolding dirent_loop
dirent_loop_end zero pt i h = refl
dirent_loop_end (suc fuel) pt i h = rw (lt→leb_false (i + 15) (length pt) h)

-- Any fuel that covers the bytes left gives the same entries: the loop never stops for lack of fuel.
pub dirent_loop_fuel :
    (f g : ℕ) (pt : Bytes) (i : ℕ)
    → length pt ≤ i + f
    → length pt ≤ i + g
    → dirent_loop f pt i ≡ dirent_loop g pt i
unfolding dirent_loop
dirent_loop_fuel zero g pt i hf hg = sym (dirent_loop_end g pt i (omega arith))
dirent_loop_fuel (suc f) zero pt i hf hg = dirent_loop_end (suc f) pt i (omega arith)
dirent_loop_fuel (suc f) (suc g) pt i hf hg = elim (Option-cases (be16 pt (i + 12))) [
  | inl e ↦ rw e
  | inr (n, e) ↦ rw (e, dirent_loop_fuel f g pt (i + 15 + n + 1) (omega arith) (omega arith))
]

dirent_loop-serialize :
    (es : List DirEntry) (fuel : ℕ) (before : Bytes)
    → All IsWritable es
    → length es ≤ fuel
    → dirent_loop fuel (before ++ serialize_dirent_list es) (length before) ≡ listed es
unfolding serialize_dirent_list
dirent_loop-serialize [] fuel before w h =
    dirent_loop_end fuel (before ++ []) (length before) (omega (arith, length-append before []))
dirent_loop-serialize (e ∷ es) zero before w h = absurd (omega arith)
dirent_loop-serialize (e ∷ es) (suc fuel) before (w, ws) h =
    let grown : length before + entry_size e ≡ length (before ++ serialize_entry e) =
      omega (arith, length-append before (serialize_entry e), length-serialize_entry e) in
    dirent_loop-entry before e (serialize_dirent_list es) w fuel
    ∙ ap (keep e.name e.d_type) (
        rw (grown, ← append_assoc before (serialize_entry e) (serialize_dirent_list es))
          (dirent_loop-serialize es fuel (before ++ serialize_entry e) ws (omega arith)))

length-serialize_dirent_list : (es : List DirEntry) → length es ≤ length (serialize_dirent_list es)
unfolding serialize_dirent_list
length-serialize_dirent_list [] = omega arith
length-serialize_dirent_list (e ∷ es) = omega (
  arith,
  length-append (serialize_entry e) (serialize_dirent_list es),
  length-serialize_entry e,
  length-serialize_dirent_list es,
)

-- Parsing a serialised listing gives back its entries in order, without `.`, `..` and nameless ones,
-- when each name is UTF-8 text of less than 2 ^ 16 bytes.
pub parse_dirent_list-serialize_dirent_list :
    (es : List DirEntry)
    → All IsWritable es
    → parse_dirent_list (serialize_dirent_list es) ≡ listed es
unfolding parse_dirent_list
parse_dirent_list-serialize_dirent_list es w =
    dirent_loop-serialize es (length (serialize_dirent_list es)) [] w
      (length-serialize_dirent_list es)
