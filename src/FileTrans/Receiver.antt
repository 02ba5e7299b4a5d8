-- ===== src/FileTrans/Receiver.antt =====
-- crates/pcsuite-core/src/filetrans.rs: the receiver of files from the phone. The messages of the
-- control channel are a list; what the download gives and which writes succeed are arguments.
pub mod Trace
pub mod Paths
use pcsuite_rs.Base.{
  ℕ, suc, ◌+◌, ◌%◌, Bool, true, false, not, List, [], ◌∷◌, ◌++◌, Option, none, some, length, map,
  is_empty, bytes_eq, if◌then◌else◌,
}
use pcsuite_rs.Base.Wire.{Bytes, codes}
use pcsuite_rs.Base.Maybe.{or_else}
use pcsuite_rs.Base.Result.{Result, done, bail}
use pcsuite_rs.Base.Outcome.{usize_mod, u32_mod}
use pcsuite_rs.Base.Text.{split, to_decimal}
use pcsuite_rs.Json.{Value, string, json_object, json_array, Serde}
use pcsuite_rs.FileTrans.{
  FileTransItem, parse_file_trans_tag, is_cancel, success_receipt, fail_receipt,
}

pub data FileTransEvent : Type 0 where
  started : List Bytes → FileTransEvent
  finished : List Bytes → Bytes → FileTransEvent
  aborted : List Bytes → FileTransEvent
  cancelled : FileTransEvent

abbrev names_value : List Bytes → Value
names_value names = json_array (map string names)

-- The value that `to_json` prints; `error` is the text of the failure.
unfoldable pub event_value : FileTransEvent → Bytes → Value
event_value (started files) error =
    json_object ((codes "type", string (codes "started")) ∷ (codes "files", names_value files) ∷ [])
event_value (finished files dir) error = json_object (
    (codes "type", string (codes "done"))
    ∷ (codes "files", names_value files)
    ∷ (codes "dir", string dir)
    ∷ [])
event_value (aborted files) error = json_object (
    (codes "type", string (codes "failed"))
    ∷ (codes "files", names_value files)
    ∷ (codes "error", string error)
    ∷ [])
event_value cancelled error = json_object ((codes "type", string (codes "cancelled")) ∷ [])

-- What the receiver does, in order: it reports, writes a file, and sends a receipt.
pub data Act : Type 0 where
  report : FileTransEvent → Act
  write_file : Bytes → Bytes → Act
  reply : Bytes → Act

-- `Path::file_name`: the last component that is neither empty nor `.`, unless it is `..`.
abbrev last_part : Option Bytes → List Bytes → Option Bytes
last_part seen [] = seen
last_part seen (c ∷ cs) =
    if is_empty c
    then last_part seen cs
    else if bytes_eq c (codes ".")
    then last_part seen cs
    else last_part (some c) cs

unfoldable pub file_name_of : Bytes → Option Bytes
file_name_of path = elim (last_part none (split b'/' path)) [
  | none ↦ none
  | some c ↦ if bytes_eq c (codes "..") then none else some c
]

-- The name under which an entry is saved, when `n` were saved before it.
unfoldable pub safe_name : Bytes → ℕ → Bytes
safe_name name n = or_else (file_name_of name) (codes "recv-" ++ (to_decimal n ++ codes ".bin"))

abbrev pub sum_sizes : List FileTransItem → ℕ
sum_sizes [] = 0
sum_sizes (it ∷ items) = (it.size + sum_sizes items) % usize_mod

abbrev pub dest_of : Bytes → Bytes → Bytes
dest_of save_dir name = save_dir ++ (b'/' ∷ name)

module _ (save_dir : Bytes) (can_mkdir : Bool) (can_write : Bytes → Bool)
    (download_batch : Bytes → List Bytes → ℕ → Result (List (Bytes × Bytes))) where
  -- The entries are written one by one, up to the first that cannot be.
  unfoldable pub save_all : List (Bytes × Bytes) → List Bytes → List Act × Result (List Bytes)
  save_all [] saved = ([], done saved)
  save_all ((name, content) ∷ files) saved =
      let safe = safe_name name (length saved) in
      let (acts, result) = save_all files (saved ++ (safe ∷ [])) in
      if can_write (dest_of save_dir safe)
      then (write_file (dest_of save_dir safe) content ∷ acts, result)
      else ([], bail "write")

  unfoldable pub recv_batch : Bytes → List FileTransItem → List Act × Result (List Bytes)
  recv_batch task_id batch =
      if not can_mkdir
      then ([], bail "mkdir")
      else elim (download_batch task_id (map (λ it. it.path) batch) (sum_sizes batch)) [
        | bail e ↦ ([], bail e)
        | done files ↦ save_all files []
      ]

  module _ (s : Serde) (new_id : ℕ → Bytes) where
    -- A batch: it is reported, pulled, answered by a receipt, and reported again.
    unfoldable pub on_batch : Bytes → List FileTransItem → List Act
    on_batch task_id batch =
        let names = map (λ it. it.file_name) batch in
        let (acts, result) = recv_batch task_id batch in
        report (started names)
        ∷ (acts ++ elim result [
          | done saved ↦
              reply (success_receipt s task_id (length saved % u32_mod))
              ∷ report (finished saved save_dir)
              ∷ []
          | bail e ↦
              reply (fail_receipt s task_id (length batch % u32_mod) 0)
              ∷ report (aborted names)
              ∷ []
        ])

    -- The loop over the messages; `n` batches had an id before.
    unfoldable pub filetrans_feature : ℕ → List Bytes → List Act
    filetrans_feature n [] = []
    filetrans_feature n (text ∷ texts) =
        if is_cancel text
        then report cancelled ∷ filetrans_feature n texts
        else elim (parse_file_trans_tag s text) [
          | none ↦ filetrans_feature n texts
          | some [] ↦ filetrans_feature n texts
          | some (it ∷ batch) ↦ on_batch (new_id n) (it ∷ batch) ++ filetrans_feature (suc n) texts
        ]
