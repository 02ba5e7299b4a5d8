-- ===== src/Mdfs/Tar/Added.antt =====
-- crates/pcsuite-core/src/mdfs.rs: what `extract_tar_to_dir` has added to a disk.
use pcsuite_rs.Base.{
  ℕ, ◌≡◌, ap, sym, ◌∙◌, List, [], ◌∷◌, ◌++◌, some, bytes_eq, All, Bool-cases, inl, inr,
  append_assoc,
}
use pcsuite_rs.Base.Wire.{Bytes}
use pcsuite_rs.Mdfs.Tar.Extract.{Disk, lookup}
use pcsuite_rs.Mdfs.Tar.Plain.{IsInside}

abbrev pub File : Type 0
File = Bytes × Bytes × ℕ

-- The second disk is the first with paths inside the directory and files at such paths added.
pub record Adds (out_dir : Bytes) (before after : Disk) : Type 0 where
  pub paths : List Bytes
  pub written : List File
  pub existing : after.existing ≡ paths ++ before.existing
  pub files : after.files ≡ before.files ++ written
  pub paths_inside : All (IsInside out_dir) paths
  pub files_inside : All (λ f. IsInside out_dir f.0) written

pub All-append :
    {A : Type 0} (P : A → Type 0) (xs ys : List A) → All P xs → All P ys → All P (xs ++ ys)
All-append P [] ys h k = k
All-append P (x ∷ xs) ys (h, hs) k = (h, All-append P xs ys hs k)

module _ (out_dir : Bytes) (d : Disk) where
  pub more :
      (paths : List Bytes) (written : List File) (d' : Disk)
      → Adds out_dir d d'
      → All (IsInside out_dir) paths
      → All (λ f. IsInside out_dir f.0) written
      → Adds out_dir d (record { existing = paths ++ d'.existing; files = d'.files ++ written })
  more paths written d' h ps fs = record {
    paths = paths ++ h.paths;
    written = h.written ++ written;
    existing = ap (λ q. paths ++ q) h.existing ∙ sym (append_assoc paths h.paths d.existing);
    files = ap (λ q. q ++ written) h.files ∙ append_assoc d.files h.written written;
    paths_inside = All-append (IsInside out_dir) paths h.paths ps h.paths_inside;
    files_inside =
        All-append (λ (f : File). IsInside out_dir f.0) h.written written h.files_inside fs;
  }

module _ (out_dir : Bytes) where
  pub lookup-IsInside :
      (top : List (Bytes × Bytes)) (key root : Bytes)
      → All (λ kv. IsInside out_dir kv.1) top
      → lookup top key ≡ some root
      → IsInside out_dir root
  lookup-IsInside [] key root h e = cc
  lookup-IsInside ((k, v) ∷ kvs) key root (h, hs) e = elim (Bool-cases (bytes_eq k key)) [
    | inl same ↦ let f : some v ≡ some root = rw same at e in let g : v ≡ root = cc in rw (← g) h
    | inr other ↦ lookup-IsInside kvs key root hs (rw other at e)
  ]
