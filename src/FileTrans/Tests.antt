-- ===== src/FileTrans/Tests.antt =====
-- Runs of the file receiver, and its theorems at concrete inputs.
use pcsuite_rs.Base.{ℕ, ◌≡◌, refl, true, List, [], ◌∷◌, none, some, bytes_eq}
use pcsuite_rs.Base.Wire.{Bytes, codes, starts_with, position_of, position_from}
use pcsuite_rs.Base.Result.{Result, done}
use pcsuite_rs.Base.Text.{
  split, split_loop, split_once, strip_prefix, to_decimal, from_str_radix, digits_from,
}
use pcsuite_rs.Base.Text.Parts.{from_first, after_last, rsplit_once}
use pcsuite_rs.Json.{json_object, json_array, string, get, Serde}
use pcsuite_rs.FileTrans.{
  parse_file_trans_tag, items_of, item_of, item_size, is_cancel, success_receipt,
}
use pcsuite_rs.FileTrans.Receiver.{
  report, write_file, reply, started, finished, cancelled, safe_name, file_name_of,
  filetrans_feature, on_batch, recv_batch, save_all,
}
use pcsuite_rs.FileTrans.Receiver.Trace.{IsTrace, filetrans_feature-IsTrace}
use pcsuite_rs.FileTrans.Receiver.Paths.{IsPlainName, safe_name-IsPlainName}

-- Any JSON text is the announcement of one file, and any value is printed as `""`.
abbrev fixed : Serde
fixed = record {
  from_str = λ bs. some (
      json_array (
        json_object (
          (codes "path", string (codes "/sdcard/b.jpg"))
          ∷ (codes "fileSize", string (codes "456"))
          ∷ [])
        ∷ json_object ((codes "fileName", string (codes "x")) ∷ [])
        ∷ []));
  to_string = λ v. codes "\"\"";
}

-- The name is the path's last part, the size may be a text, and an item without a path is left out.
items_read :
    parse_file_trans_tag fixed (codes "FILE_TRANS_TAG:[]")
    ≡ some (record { file_name = codes "b.jpg"; path = codes "/sdcard/b.jpg"; size = 456 } ∷ [])
unfolding parse_file_trans_tag strip_prefix starts_with from_first position_of position_from
    items_of item_of item_size get bytes_eq after_last rsplit_once from_str_radix digits_from
items_read = refl

other_message : parse_file_trans_tag fixed (codes "KEEPALIVE") ≡ none
unfolding parse_file_trans_tag strip_prefix starts_with
other_message = refl

file_names :
    (file_name_of (codes "/a/b/") ≡ some (codes "b"))
    × (file_name_of (codes "a/..") ≡ none)
    × (file_name_of (codes "x/.") ≡ some (codes "x"))
unfolding file_name_of split split_loop split_once bytes_eq
file_names = (refl, refl, refl)

abbrev one_file : Bytes → List Bytes → ℕ → Result (List (Bytes × Bytes))
one_file task_id paths total = done ((codes "../b.jpg", 7 ∷ []) ∷ [])

abbrev messages : List Bytes
messages = codes "TRANS_FILE_FAIL:{}" ∷ codes "FILE_TRANS_TAG:[]" ∷ []

received :
    filetrans_feature (codes "/in") true (λ p. true) one_file fixed (λ n. codes "id") 0 messages
    ≡ report cancelled
      ∷ report (started (codes "b.jpg" ∷ []))
      ∷ write_file (codes "/in/b.jpg") (7 ∷ [])
      ∷ reply (codes "TRANS_FILE_SUCCESS:{\"successCount\":1,\"id\":\"\"}")
      ∷ report (finished (codes "b.jpg" ∷ []) (codes "/in"))
      ∷ []
unfolding filetrans_feature on_batch recv_batch save_all safe_name file_name_of is_cancel
    parse_file_trans_tag strip_prefix starts_with from_first position_of position_from items_of
    item_of item_size get bytes_eq after_last rsplit_once from_str_radix digits_from split
    split_loop split_once success_receipt to_decimal
received = refl

filetrans_feature-IsTrace_example :
    IsTrace
      (codes "/in")
      fixed
      (filetrans_feature (codes "/in") true (λ p. true) one_file fixed (λ n. codes "id") 0 messages)
filetrans_feature-IsTrace_example =
    filetrans_feature-IsTrace (codes "/in") fixed true (λ p. true) one_file (λ n. codes "id") 0
      messages

safe_name-IsPlainName_example : IsPlainName (safe_name (codes "../../etc/passwd") 3)
safe_name-IsPlainName_example = safe_name-IsPlainName (codes "../../etc/passwd") 3
