-- ===== src/FileTrans.antt =====
-- crates/pcsuite-proto/src/filetrans.rs: the messages by which the phone announces files, and the
-- receipts. The receiver is in FileTrans/Receiver.
pub mod Receiver
mod Tests
use pcsuite_rs.Base.{
  ℕ, ◌^◌, Bool, true, false, ◌||◌, List, [], ◌∷◌, ◌++◌, Option, none, some, is_empty, if◌then◌else◌,
}
use pcsuite_rs.Base.Wire.{Bytes, codes, starts_with}
use pcsuite_rs.Base.Maybe.{◌>>=◌, or_else}
use pcsuite_rs.Base.Text.{strip_prefix, from_str_radix, to_decimal}
use pcsuite_rs.Base.Text.Parts.{after_last, from_first}
use pcsuite_rs.Json.{Value, string, get, as_str, as_u64, as_array, Serde}

abbrev pub file_trans_prefix : Bytes
file_trans_prefix = codes "FILE_TRANS_TAG:"

abbrev pub share_trans_prefix : Bytes
share_trans_prefix = codes "SHARE_TRANS_FILE:"

abbrev pub cancel_prefix : Bytes
cancel_prefix = codes "TRANS_FILE_CANCEL:"

abbrev pub success_prefix : Bytes
success_prefix = codes "TRANS_FILE_SUCCESS:"

abbrev pub fail_prefix : Bytes
fail_prefix = codes "TRANS_FILE_FAIL:"

pub record FileTransItem : Type 0 where
  pub file_name : Bytes
  pub path : Bytes
  pub size : ℕ

-- `a.or_else(|| b)`
abbrev pub or_try {ℓ} : {A : Type ℓ} → Option A → Option A → Option A
or_try (some a) b = some a
or_try none b = b

abbrev pub unless_empty : Bytes → Option Bytes
unless_empty s = if is_empty s then none else some s

-- The declared size, as a number or as its text; 0 without one.
unfoldable pub item_size : Value → ℕ
item_size it =
    or_else
      (do
        v ← get it (codes "fileSize")
        or_try (as_u64 v) (do s ← as_str v; from_str_radix 10 (2 ^ 64) s))
      0

-- An announced item; `none` without a path to pull.
unfoldable pub item_of : Value → Option FileTransItem
item_of it =
    let path = or_else (do v ← get it (codes "path"); as_str v) [] in
    if is_empty path
    then none
    else some (record {
      file_name =
          or_else (do v ← get it (codes "fileName"); s ← as_str v; unless_empty s)
            (after_last b'/' path);
      path = path;
      size = item_size it;
    })

unfoldable pub items_of : List Value → List FileTransItem
items_of [] = []
items_of (v ∷ vs) = elim (item_of v) [ none ↦ items_of vs | some it ↦ it ∷ items_of vs ]

module _ (s : Serde) where
  unfoldable pub parse_file_trans_tag : Bytes → Option (List FileTransItem)
  parse_file_trans_tag text = do
    rest ← or_try (strip_prefix file_trans_prefix text) (strip_prefix share_trans_prefix text)
    json ← from_first (codes "[") rest
    v ← s.from_str json
    vs ← as_array v
    some (items_of vs)

  unfoldable pub success_receipt : Bytes → ℕ → Bytes
  success_receipt task_id success_count =
      success_prefix
      ++ (codes "{\"successCount\":"
          ++ (to_decimal success_count
              ++ (codes ",\"id\":" ++ (s.to_string (string task_id) ++ codes "}"))))

  unfoldable pub fail_receipt : Bytes → ℕ → ℕ → Bytes
  fail_receipt task_id fail_count success_count =
      cancel_prefix
      ++ (codes "{\"failCount\":"
          ++ (to_decimal fail_count
              ++ (codes ",\"successCount\":"
                  ++ (to_decimal success_count
                      ++ (codes ",\"type\":\"send\",\"id\":"
                          ++ (s.to_string (string task_id) ++ codes "}"))))))

unfoldable pub is_cancel : Bytes → Bool
is_cancel text = starts_with text cancel_prefix || starts_with text fail_prefix
