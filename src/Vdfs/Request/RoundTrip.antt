-- ===== src/Vdfs/Request/RoundTrip.antt =====
-- `parse_request` against the three builders: crates/pcsuite-proto/src/vdfs.rs.
use pcsuite_rs.Base.{
  ℕ, ◌||◌, ◌==◌, if◌then◌else◌, drop, ◌+◌, ◌-◌, ◌%◌, ◌^◌, ◌<◌, ◌≡◌, ap, ◌∙◌, ◌++◌, Option, none,
  some, length, arith, length-append, le→ltb_false, get_range?-some, take-append, drop-append,
  drop-append_add, take_all, get_range?,
}
use pcsuite_rs.Base.Wire.{Bytes, to_be, length-to_be, from_be-to_be}
use pcsuite_rs.Base.Outcome.{u32_mod}
use pcsuite_rs.Vdfs.{be32, be64}
use pcsuite_rs.Vdfs.Request.{
  Request, name_field, request_plaintext, stat_plaintext, list_plaintext, read_plaintext,
  parse_request, parse_name_body, parse_read_body,
}

length-name_field : (name : Bytes) → length (name_field name) ≡ 4 + length name
length-name_field name = omega (
  arith,
  length-append (to_be 4 (length name % u32_mod)) name,
  length-to_be 4 (length name % u32_mod),
)

abbrev dispatched : ℕ → Bytes → Option Request
dispatched cmd body =
    if cmd == 2 || cmd == 3
    then parse_name_body cmd body
    else if cmd == 6
    then parse_read_body cmd body
    else none

parse_request-plaintext :
    (seq cmd : ℕ) (body : Bytes)
    → parse_request (request_plaintext seq cmd body) ≡ dispatched cmd body
unfolding parse_request request_plaintext
parse_request-plaintext seq cmd body =
    rw (le→ltb_false (length (request_plaintext seq cmd body)) 22 (omega arith))

module _ (name : Bytes) (fits : length name < 2 ^ 32) where
  be32-name_field : be32 (name_field name) 0 ≡ some (length name)
  unfolding be32
  be32-name_field =
      rw
        (
          get_range?-some 0 4 (name_field name) (omega arith)
              (omega (arith, length-name_field name)),
          take-append 4 (to_be 4 (length name % u32_mod)) name (length-to_be 4 _),
          from_be-to_be 4 (length name % u32_mod) (omega arith),
        )
        (ap some (omega arith))

  name_read : get_range? 4 (4 + length name) (name_field name) ≡ some name
  name_read =
      let n : 4 + length name - 4 ≡ length name = omega arith in
      get_range?-some 4 (4 + length name) (name_field name) (omega arith)
        (omega (arith, length-name_field name))
      ∙ ap some (
          rw (
            n,
            drop-append 4 (to_be 4 (length name % u32_mod)) name (length-to_be 4 _),
            take_all (length name) name (omega arith),
          ))

  parse_name_body-name_field :
      (cmd : ℕ)
      → parse_name_body cmd (name_field name)
        ≡ some (record { cmd = cmd; size = 0; offset = 0; name = name })
  unfolding parse_name_body
  parse_name_body-name_field cmd = rw (be32-name_field, name_read)

  -- A STAT or LIST request is parsed back to its command and its name, with size and offset 0.
  pub parse_request-name :
      (seq : ℕ)
      → (parse_request (stat_plaintext seq name)
          ≡ some (record { cmd = 3; size = 0; offset = 0; name = name }))
        × (parse_request (list_plaintext seq name)
            ≡ some (record { cmd = 2; size = 0; offset = 0; name = name }))
  unfolding stat_plaintext list_plaintext
  parse_request-name seq = (
    parse_request-plaintext seq 3 (name_field name) ∙ parse_name_body-name_field 3,
    parse_request-plaintext seq 2 (name_field name) ∙ parse_name_body-name_field 2,
  )

-- The fields of a READ body lie at offsets 0, 8, 16 and 20.
module _ (size offset : ℕ) (name : Bytes) where
  abbrev read_body : Bytes
  read_body = to_be 8 size ++ (to_be 8 offset ++ name_field name)

  length-read_body : length read_body ≡ 20 + length name
  length-read_body = omega (
    arith,
    length-append (to_be 8 size) (to_be 8 offset ++ name_field name),
    length-append (to_be 8 offset) (name_field name),
    length-to_be 8,
    length-name_field name,
  )

  be64-size : size < 2 ^ 64 → be64 read_body 0 ≡ some size
  unfolding be64
  be64-size h = rw (
    get_range?-some 0 8 read_body (omega arith) (omega (arith, length-read_body)),
    take-append 8 (to_be 8 size) (to_be 8 offset ++ name_field name) (length-to_be 8 _),
    from_be-to_be 8 size (omega arith),
  )

  be64-offset : offset < 2 ^ 64 → be64 read_body 8 ≡ some offset
  unfolding be64
  be64-offset h = rw (
    get_range?-some 8 16 read_body (omega arith) (omega (arith, length-read_body)),
    drop-append 8 (to_be 8 size) (to_be 8 offset ++ name_field name) (length-to_be 8 _),
    take-append 8 (to_be 8 offset) (name_field name) (length-to_be 8 _),
    from_be-to_be 8 offset (omega arith),
  )

  to_name_field : (i : ℕ) → drop (8 + (8 + i)) read_body ≡ drop i (name_field name)
  to_name_field i =
      drop-append_add 8 (8 + i) (to_be 8 size) (to_be 8 offset ++ name_field name)
        (length-to_be 8 _)
      ∙ drop-append_add 8 i (to_be 8 offset) (name_field name) (length-to_be 8 _)

  be32-name : length name < 2 ^ 32 → be32 read_body 16 ≡ some (length name)
  unfolding be32
  be32-name h =
      rw
        (
          get_range?-some 16 20 read_body (omega arith) (omega (arith, length-read_body)),
          to_name_field 0,
          take-append 4 (to_be 4 (length name % u32_mod)) name (length-to_be 4 _),
          from_be-to_be 4 (length name % u32_mod) (omega arith),
        )
        (ap some (omega arith))

  read_name : get_range? 20 (20 + length name) read_body ≡ some name
  read_name =
      let n : 20 + length name - 20 ≡ length name = omega arith in
      get_range?-some 20 (20 + length name) read_body (omega arith)
        (omega (arith, length-read_body))
      ∙ ap some (
          rw (
            n,
            to_name_field 4,
            drop-append 4 (to_be 4 (length name % u32_mod)) name (length-to_be 4 _),
            take_all (length name) name (omega arith),
          ))

-- A READ request is parsed back to its command, size, offset and name.
pub parse_request-read :
    (seq size offset : ℕ) (name : Bytes)
    → size < 2 ^ 64
    → offset < 2 ^ 64
    → length name < 2 ^ 32
    → parse_request (read_plaintext seq size offset name)
      ≡ some (record { cmd = 6; size = size; offset = offset; name = name })
unfolding read_plaintext parse_read_body
parse_request-read seq size offset name hs ho hn =
    parse_request-plaintext seq 6 (read_body size offset name)
    ∙ rw (
      be64-size size offset name hs,
      be64-offset size offset name ho,
      be32-name size offset name hn,
      read_name size offset name,
    )

pub length-stat_plaintext :
    (seq : ℕ) (name : Bytes) → length (stat_plaintext seq name) ≡ 26 + length name
unfolding stat_plaintext request_plaintext
length-stat_plaintext seq name = omega (arith, length-name_field name)

pub length-list_plaintext :
    (seq : ℕ) (name : Bytes) → length (list_plaintext seq name) ≡ 26 + length name
unfolding list_plaintext request_plaintext
length-list_plaintext seq name = omega (arith, length-name_field name)

pub length-read_plaintext :
    (seq size offset : ℕ) (name : Bytes)
    → length (read_plaintext seq size offset name) ≡ 42 + length name
unfolding read_plaintext request_plaintext
length-read_plaintext seq size offset name = omega (
  arith,
  length-name_field name,
  length-append (to_be 8 size) (to_be 8 offset ++ name_field name),
  length-append (to_be 8 offset) (name_field name),
  length-to_be 8 size,
  length-to_be 8 offset,
)
