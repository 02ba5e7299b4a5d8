-- ===== src/Mdfs/Tar/Inside.antt =====
-- crates/pcsuite-core/src/mdfs.rs: where `extract_tar_to_dir` writes.
use pcsuite_rs.Base.{List, All}
use pcsuite_rs.Base.Wire.{Bytes}
use pcsuite_rs.Base.Result.{Result, ◌>>=◌, Holds}
use pcsuite_rs.Mdfs.Tar.Extract.{Disk, Extraction}
use pcsuite_rs.Mdfs.Tar.Plain.{IsInside}
use pcsuite_rs.Mdfs.Tar.Added.{Adds}

module _ (out_dir : Bytes) (d : Disk) where
  abbrev Keeps : Extraction → Type 0
  Keeps e =
      Adds out_dir d e.disk
      × All (IsInside out_dir) e.created
      × All (λ kv. IsInside out_dir kv.1) e.top

  abbrev Rooted : Bytes × Extraction → Type 0
  Rooted (root, e) = IsInside out_dir root × Keeps e

-- The extraction fails, or it has only added paths and files inside the directory to the disk, and the
-- paths that it gives are inside.
abbrev pub LeavesInside : Bytes → Disk → Result (List Bytes × Disk) → Type 0
LeavesInside out_dir d = Holds (λ r. Adds out_dir d r.1 × All (IsInside out_dir) r.0)
