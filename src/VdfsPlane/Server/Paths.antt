-- ===== src/VdfsPlane/Server/Paths.antt =====
-- The path that the 5679 server reads for a name: crates/pcsuite-core/src/vdfs.rs.
use pcsuite_rs.Base.{
  ℕ, zero, suc, ◌+◌, ◌≤◌, ◌<◌, ◌≡◌, ◌≢◌, refl, Bool, true, false, [], ◌∷◌, ◌++◌, map, length,
  drop-append, arith, Bool-cases, inl, inr, All,
}
use pcsuite_rs.Base.Wire.{Bytes, starts_with}
use pcsuite_rs.VdfsPlane.Server.{
  strip_id, slash, halve_slashes, has_double, collapse_loop, name_to_path,
}

-- `held` counts the slash that is held back.
abbrev held : Bool → ℕ
held true = 1
held false = 0

length-halve_slashes : (b : Bool) (p : Bytes) → length (halve_slashes b p) ≤ held b + length p
unfolding halve_slashes
length-halve_slashes true [] = omega arith
length-halve_slashes false [] = omega arith
length-halve_slashes true (c ∷ cs) = ground (arith, length-halve_slashes false cs)
length-halve_slashes false (c ∷ cs) =
    ground (arith, length-halve_slashes true cs, length-halve_slashes false cs)

-- A double slash is there, so a round of `replace` shortens the path.
halve_slashes-lt : (p : Bytes) → has_double p ≡ true → length (halve_slashes false p) < length p
unfolding has_double halve_slashes starts_with
halve_slashes-lt [] h = cc
halve_slashes-lt (c ∷ []) h = ground arith
halve_slashes-lt (c ∷ d ∷ cs) h =
    ground (arith, length-halve_slashes false cs, halve_slashes-lt (d ∷ cs), halve_slashes-lt cs)

collapse_loop-has_double :
    (fuel : ℕ) (p : Bytes) → length p ≤ fuel → has_double (collapse_loop fuel p) ≡ false
unfolding collapse_loop
collapse_loop-has_double zero [] h = unfold has_double in refl
collapse_loop-has_double zero (c ∷ cs) h = absurd (omega arith)
collapse_loop-has_double (suc fuel) p h = elim (Bool-cases (has_double p)) [
  | inl e ↦
      rw e (
        collapse_loop-has_double fuel (halve_slashes false p) (omega (arith, halve_slashes-lt p e)))
  | inr e ↦ rw e e
]

abbrev pub NoBackslash : Bytes → Type 0
NoBackslash = All (λ c. c ≢ b'\\')

map-slash-NoBackslash : (p : Bytes) → NoBackslash (map slash p)
map-slash-NoBackslash [] = tt
map-slash-NoBackslash (c ∷ cs) = (ground arith, map-slash-NoBackslash cs)

halve_slashes-NoBackslash : (b : Bool) (p : Bytes) → NoBackslash p → NoBackslash (halve_slashes b p)
unfolding halve_slashes
halve_slashes-NoBackslash true [] h = (omega arith, tt)
halve_slashes-NoBackslash false [] h = tt
halve_slashes-NoBackslash true (c ∷ cs) (h, hs) =
    ground (arith, halve_slashes-NoBackslash false cs hs)
halve_slashes-NoBackslash false (c ∷ cs) (h, hs) =
    ground (arith, halve_slashes-NoBackslash true cs hs, halve_slashes-NoBackslash false cs hs)

collapse_loop-NoBackslash :
    (fuel : ℕ) (p : Bytes) → NoBackslash p → NoBackslash (collapse_loop fuel p)
unfolding collapse_loop
collapse_loop-NoBackslash zero p h = h
collapse_loop-NoBackslash (suc fuel) p h = elim (Bool-cases (has_double p)) [
  | inl e ↦
      rw e (
        collapse_loop-NoBackslash fuel (halve_slashes false p)
          (halve_slashes-NoBackslash false p h))
  | inr e ↦ rw e h
]

-- Whatever name the phone sends, the path has no backslash and no two slashes in a row: the loop ends.
pub name_to_path_clean :
    (name pc_id : Bytes)
    → (has_double (name_to_path name pc_id) ≡ false) × NoBackslash (name_to_path name pc_id)
unfolding name_to_path
name_to_path_clean name pc_id =
    let p = map slash (strip_id name pc_id) in
    (
      collapse_loop-has_double (length p) p (omega arith),
      collapse_loop-NoBackslash (length p) p (map-slash-NoBackslash (strip_id name pc_id)),
    )

map-slash-id : (p : Bytes) → NoBackslash p → map slash p ≡ p
map-slash-id [] h = refl
map-slash-id (c ∷ cs) (h, hs) = ground (arith, map-slash-id cs hs)

starts_with-append : (xs ys : Bytes) → starts_with (xs ++ ys) xs ≡ true
unfolding starts_with
starts_with-append [] [] = refl
starts_with-append [] (y ∷ ys) = refl
starts_with-append (x ∷ xs) ys = ground (arith, starts_with-append xs ys)

collapse_loop-id : (fuel : ℕ) (p : Bytes) → has_double p ≡ false → collapse_loop fuel p ≡ p
unfolding collapse_loop
collapse_loop-id zero p h = refl
collapse_loop-id (suc fuel) p h = rw h

-- The name that a client sends for a clean path behind the PC's id is that path.
pub name_to_path-append :
    (pc_id path : Bytes)
    → has_double path ≡ false
    → NoBackslash path
    → name_to_path (pc_id ++ path) pc_id ≡ path
unfolding name_to_path
name_to_path-append pc_id path h k =
    rw
      (
        name_to_path,
        starts_with-append pc_id path,
        drop-append (length pc_id) pc_id path refl,
        map-slash-id path k,
      )
      (collapse_loop-id (length path) path h)
