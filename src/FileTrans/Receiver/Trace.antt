-- ===== src/FileTrans/Receiver/Trace.antt =====
-- What the receiver's acts look like from the phone and from the frontend:
-- crates/pcsuite-core/src/filetrans.rs.
use Prim.Native.String.{String}
use pcsuite_rs.Base.{
  ◌≢◌, ◌⊎◌, ℕ, suc, ◌%◌, ◌≡◌, refl, sym, ap, ◌∙◌, Bool, List, [], ◌∷◌, ◌++◌, Option, none, some,
  length, map, Bool-cases, inl, inr, append_assoc, append-nil,
}
use pcsuite_rs.Base.Wire.{Bytes}
use pcsuite_rs.Base.Result.{Result, done, bail, Result-cases}
use pcsuite_rs.Base.Outcome.{u32_mod}
use pcsuite_rs.Json.{Serde}
use pcsuite_rs.FileTrans.{
  FileTransItem, parse_file_trans_tag, is_cancel, success_receipt, fail_receipt,
}
use pcsuite_rs.FileTrans.Receiver.{
  Act, report, write_file, reply, started, finished, aborted, cancelled, safe_name, save_all,
  sum_sizes, recv_batch, on_batch, filetrans_feature, dest_of,
}

abbrev pub writes : List (Bytes × Bytes) → List Act
writes [] = []
writes ((p, c) ∷ ws) = write_file p c ∷ writes ws

abbrev pub paths : List (Bytes × Bytes) → List Bytes
paths [] = []
paths ((p, c) ∷ ws) = p ∷ paths ws

done-injective : {a b : List Bytes} → done a ≡ done b → a ≡ b
done-injective e = cc

bail≢done : {m : String} {a : List Bytes} → bail m ≢ done a
bail≢done e = cc

length-names : (batch : List FileTransItem) → length (map (λ it. it.file_name) batch) ≡ length batch
length-names [] = refl
length-names (it ∷ batch) = ap suc (length-names batch)

-- No batch, one without items, or one with items.
batch_cases :
    (o : Option (List FileTransItem))
    → (o ≡ none)
      ⊎ (o ≡ some [])
      ⊎ ((it : FileTransItem) × (items : List FileTransItem) × (o ≡ some (it ∷ items)))
batch_cases none = inl refl
batch_cases (some []) = inr (inl refl)
batch_cases (some (it ∷ items)) = inr (inr (it, items, refl))

module _ (save_dir : Bytes) (s : Serde) where
  abbrev places : List Bytes → List Bytes
  places [] = []
  places (n ∷ ns) = dest_of save_dir n ∷ places ns

  -- Each batch is a group of its own: it is announced, files are written, one receipt is sent, and the
  -- end is reported. A batch that is done wrote just the files that it names and counts; one that failed
  -- counts none of its files as received.
  pub data IsTrace : List Act → Type 0 where
    nothing : IsTrace []
    a_cancel : {rest : List Act} → IsTrace rest → IsTrace (report cancelled ∷ rest)
    a_done :
        (names saved : List Bytes) (ws : List (Bytes × Bytes)) (task_id : Bytes) {rest : List Act}
        → paths ws ≡ places saved
        → IsTrace rest
        → IsTrace (
            report (started names)
            ∷ (writes ws
                ++ (reply (success_receipt s task_id (length saved % u32_mod))
                    ∷ report (finished saved save_dir)
                    ∷ rest)))
    a_failure :
        (names : List Bytes) (ws : List (Bytes × Bytes)) (task_id : Bytes) {rest : List Act}
        → IsTrace rest
        → IsTrace (
            report (started names)
            ∷ (writes ws
                ++ (reply (fail_receipt s task_id (length names % u32_mod) 0)
                    ∷ report (aborted names)
                    ∷ rest)))

  -- The writes of a batch; if it is done, they are those of the names behind `saved`.
  record Saved (saved : List Bytes) (r : List Act × Result (List Bytes)) : Type 0 where
    ws : List (Bytes × Bytes)
    acts : r.0 ≡ writes ws
    named :
        (all : List Bytes)
        → r.1 ≡ done all
        → (more : List Bytes) × (all ≡ saved ++ more) × (paths ws ≡ places more)

  no_writes : (m : String) → Saved [] ([], bail m)
  no_writes m = record { ws = []; acts = refl; named = λ all e. absurd (bail≢done e) }

  module _ (can_mkdir : Bool) (can_write : Bytes → Bool)
      (download_batch : Bytes → List Bytes → ℕ → Result (List (Bytes × Bytes))) where
    save_all-Saved :
        (files : List (Bytes × Bytes)) (saved : List Bytes)
        → Saved saved (save_all save_dir can_mkdir can_write download_batch files saved)
    unfolding save_all
    save_all-Saved [] saved = record {
      ws = [];
      acts = refl;
      named = λ all e. ([], sym (done-injective e) ∙ sym (append-nil saved), refl);
    }
    save_all-Saved ((name, content) ∷ files) saved =
        let safe = safe_name name (length saved) in
        let r = save_all-Saved files (saved ++ (safe ∷ [])) in
        elim (Bool-cases (can_write (dest_of save_dir safe))) [
          | inl good ↦ record {
            ws = (dest_of save_dir safe, content) ∷ r.ws;
            acts = rw (good, r.acts) refl;
            named = λ all e.
                let (more, split, same) = r.named all (rw good at e) in
                (
                  safe ∷ more,
                  split ∙ append_assoc saved (safe ∷ []) more,
                  ap (◌∷◌ (dest_of save_dir safe)) same,
                );
          }
          | inr bad ↦ record {
            ws = [];
            acts = rw bad refl;
            named = λ all e. absurd (bail≢done (rw bad at e));
          }
        ]

    recv_batch-Saved :
        (task_id : Bytes) (batch : List FileTransItem)
        → Saved [] (recv_batch save_dir can_mkdir can_write download_batch task_id batch)
    unfolding recv_batch
    recv_batch-Saved task_id batch = elim (Bool-cases can_mkdir) [
      | inr bad ↦ rw (recv_batch, bad) (no_writes "mkdir")
      | inl good ↦
          elim (Result-cases
            (download_batch task_id (map (λ it. it.path) batch) (sum_sizes batch))) [
              | inl (files, e) ↦ rw (recv_batch, good, e) (save_all-Saved files [])
              | inr (m, e) ↦ rw (recv_batch, good, e) (no_writes m)
            ]
    ]

    module _ (new_id : ℕ → Bytes) where
      on_batch-IsTrace :
          (task_id : Bytes) (batch : List FileTransItem) (rest : List Act)
          → IsTrace rest
          → IsTrace
              (on_batch save_dir can_mkdir can_write download_batch s new_id task_id batch ++ rest)
      unfolding on_batch
      on_batch-IsTrace task_id batch rest t =
          let r = recv_batch save_dir can_mkdir can_write download_batch task_id batch in
          let w = recv_batch-Saved task_id batch in
          elim (Result-cases r.1) [
            | inl (saved, e) ↦
                let (more, split, same) = w.named saved e in
                rw (w.acts, e, append_assoc (writes w.ws))
                  (a_done (map (λ it. it.file_name) batch) saved w.ws task_id
                    (same ∙ ap places (sym split)) t)
            | inr (m, e) ↦
                rw (w.acts, e, append_assoc (writes w.ws), ← length-names batch)
                  (a_failure (map (λ it. it.file_name) batch) w.ws task_id t)
          ]

      -- Whatever messages come, and whatever the download gives and the disk takes, the receiver's acts
      -- are a sequence of cancellations and whole batches.
      pub filetrans_feature-IsTrace :
          (n : ℕ) (texts : List Bytes)
          → IsTrace (filetrans_feature save_dir can_mkdir can_write download_batch s new_id n texts)
      unfolding filetrans_feature
      filetrans_feature-IsTrace n [] = nothing
      filetrans_feature-IsTrace n (text ∷ texts) = elim (Bool-cases (is_cancel text)) [
        | inl yes_cancel ↦
            rw (filetrans_feature, yes_cancel) (a_cancel (filetrans_feature-IsTrace n texts))
        | inr no_cancel ↦ elim (batch_cases (parse_file_trans_tag s text)) [
          | inl e ↦ rw (filetrans_feature, no_cancel, e) (filetrans_feature-IsTrace n texts)
          | inr (inl e) ↦ rw (filetrans_feature, no_cancel, e) (filetrans_feature-IsTrace n texts)
          | inr (inr (it, items, e)) ↦
              rw (filetrans_feature, no_cancel, e)
                (on_batch-IsTrace (new_id n) (it ∷ items) _
                  (filetrans_feature-IsTrace (suc n) texts))
        ]
      ]
