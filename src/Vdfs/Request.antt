-- ===== src/Vdfs/Request.antt =====
-- crates/pcsuite-proto/src/vdfs.rs: request plaintexts and their parser.
pub mod RoundTrip
use pcsuite_rs.Base.{
  ℕ, ◌+◌, ◌%◌, ◌≡◌, Bool, ◌||◌, List, [], ◌∷◌, ◌++◌, Option, none, some, length, ltb, if◌then◌else◌,
  ◌==◌, drop, get_or, get_range?,
}
use pcsuite_rs.Base.Wire.{Bytes, to_be}
use pcsuite_rs.Base.Outcome.{u32_mod}
use pcsuite_rs.Base.Maybe.{◌>>=◌}
use pcsuite_rs.Vdfs.{const16, cmd_list, cmd_stat, cmd_read, be32, be64}

pub record Request : Type 0 where
  pub cmd : ℕ
  pub size : ℕ
  pub offset : ℕ
  pub name : Bytes

unfoldable pub request_plaintext : ℕ → ℕ → Bytes → Bytes
request_plaintext seq cmd body = 5 ∷ 0 ∷ 0 ∷ 0 ∷ seq ∷ (const16 ++ (cmd ∷ body))

-- `BE32 nameLen ‖ name`
abbrev pub name_field : Bytes → Bytes
name_field name = to_be 4 (length name % u32_mod) ++ name

unfoldable pub stat_plaintext : ℕ → Bytes → Bytes
unfolding request_plaintext
stat_plaintext seq name = request_plaintext seq cmd_stat (name_field name)

unfoldable pub list_plaintext : ℕ → Bytes → Bytes
unfolding request_plaintext
list_plaintext seq name = request_plaintext seq cmd_list (name_field name)

unfoldable pub read_plaintext : ℕ → ℕ → ℕ → Bytes → Bytes
unfolding request_plaintext
read_plaintext seq size offset name =
    request_plaintext seq cmd_read (to_be 8 size ++ (to_be 8 offset ++ name_field name))

-- The two groups of arms of `match cmd`.
unfoldable pub parse_name_body : ℕ → Bytes → Option Request
parse_name_body cmd body = do
  name_len ← be32 body 0
  name ← get_range? 4 (4 + name_len) body
  some (record { cmd = cmd; size = 0; offset = 0; name = name })

unfoldable pub parse_read_body : ℕ → Bytes → Option Request
parse_read_body cmd body = do
  size ← be64 body 0
  offset ← be64 body 8
  name_len ← be32 body 16
  name ← get_range? 20 (20 + name_len) body
  some (record { cmd = cmd; size = size; offset = offset; name = name })

unfoldable pub parse_request : Bytes → Option Request
parse_request pt =
    if ltb (length pt) 22
    then none
    else let cmd = get_or pt 21 0 in
      let body = drop 22 pt in
      if cmd == cmd_list || cmd == cmd_stat
      then parse_name_body cmd body
      else if cmd == cmd_read
      then parse_read_body cmd body
      else none
