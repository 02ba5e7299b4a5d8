-- ===== src/Frames/Payload.antt =====
-- crates/pcsuite-proto/src/payload1.rs: `PAY_LOAD_1` frames.
use pcsuite_rs.Base.{
  ℕ, ◌+◌, ◌-◌, ◌%◌, ◌^◌, ◌<◌, ◌≡◌, refl, ap, ◌∙◌, not, List, [], ◌∷◌, ◌++◌, Option, none, some,
  length, ltb, if◌then◌else◌, take, drop, slice, bytes_eq, bytes_eq_iff, arith, length-append,
  length-take, take-append, take-append_add, drop-append, le→ltb_false, lt→ltb, ltb_false→le,
  ltb→lt, Bool-cases, inl, inr, append_assoc,
}
use pcsuite_rs.Base.Wire.{Bytes, codes, to_be, from_be, length-to_be, from_be-to_be}
use pcsuite_rs.Base.Outcome.{u32_mod}

abbrev pub magic : Bytes
magic = codes "PAY_LOAD_1"

abbrev pub header_len : ℕ
header_len = 14

-- `Result<Option<(Vec<u8>, usize)>, ProtoError>`
pub data Decoded : Type 0 where
  decoded : Bytes → ℕ → Decoded
  need_more : Decoded
  bad_magic : Decoded

unfoldable pub encode : Bytes → Bytes
encode text = magic ++ (to_be 4 (length text % u32_mod) ++ text)

unfoldable pub decode_strict : Bytes → Decoded
decode_strict buf =
    if ltb (length buf) header_len
    then need_more
    else if not (bytes_eq (take 10 buf) magic)
    then bad_magic
    else let total = header_len + from_be (slice 10 14 buf) in
      if ltb (length buf) total then need_more else decoded (slice header_len total buf) total

-- `parse_reply_lenient` for a JSON parser `from_slice`.
module _ {ℓ} {Value : Type ℓ} (from_slice : Bytes → Option Value) where
  unfoldable pub lenient_at : List ℕ → Bytes → Option (Value × ℕ)
  lenient_at [] buf = none
  lenient_at (off ∷ offs) buf =
      let rest = lenient_at offs buf in
      if ltb off (length buf)
      then elim (from_slice (drop off buf)) [ none ↦ rest | some v ↦ some (v, off) ]
      else rest

  unfoldable pub parse_reply_lenient : Bytes → Option (Value × ℕ)
  parse_reply_lenient buf = lenient_at (header_len ∷ 4 ∷ 0 ∷ []) buf

  -- A framed reply that is JSON is read at offset 14, whatever the parser takes at other offsets.
  pub parse_reply_lenient-encode :
      (text : Bytes) (v : Value)
      → from_slice text ≡ some v
      → 0 < length text
      → parse_reply_lenient (encode text) ≡ some (v, 14)
  unfolding parse_reply_lenient lenient_at encode
  parse_reply_lenient-encode text v e h =
      let size = to_be 4 (length text % u32_mod) in
      let len : 14 < length (encode text) =
        omega (arith, length-append size text, length-to_be 4 (length text % u32_mod)) in
      let d : drop 14 (encode text) ≡ text =
        drop-append 4 size text (length-to_be 4 (length text % u32_mod)) in
      rw (parse_reply_lenient, lenient_at, lt→ltb 14 (length (encode text)) len, d, e)

pub length-encode : (text : Bytes) → length (encode text) ≡ 14 + length text
unfolding encode
length-encode text = omega (
  arith,
  length-append (to_be 4 (length text % u32_mod)) text,
  length-to_be 4 (length text % u32_mod),
)

-- Decoding a header that announces `n` bytes, with `t` behind it.
decode_strict-header :
    (n : ℕ) (t : Bytes)
    → n < 2 ^ 32
    → decode_strict (magic ++ (to_be 4 n ++ t))
      ≡ (if ltb (14 + length t) (14 + n) then need_more else decoded (take n t) (14 + n))
unfolding decode_strict
decode_strict-header n t h =
    let size = to_be 4 n in
    let buf = magic ++ (size ++ t) in
    let len : length buf ≡ 14 + length t = omega (arith, length-append size t, length-to_be 4 n) in
    let k : 14 + n - 14 ≡ n = omega arith in
    rw (
      decode_strict,
      le→ltb_false (length buf) 14 (omega (arith, len)),
      (bytes_eq_iff magic magic).1 refl,
      take-append 4 size t (length-to_be 4 n),
      from_be-to_be 4 n (omega arith),
      len,
      k,
      drop-append 4 size t (length-to_be 4 n),
    )

fits_u32 : (text : Bytes) → length text < 2 ^ 32 → length text % u32_mod ≡ length text
fits_u32 text h = omega arith

-- A body of less than 2^32 bytes is decoded from its frame, whatever follows it, with the frame's length
-- as the count of bytes used.
pub decode_strict-encode :
    (text rest : Bytes)
    → length text < 2 ^ 32
    → decode_strict (encode text ++ rest) ≡ decoded text (length (encode text))
unfolding encode
decode_strict-encode text rest h =
    let n = fits_u32 text h in
    let size = to_be 4 (length text % u32_mod) in
    let shape : encode text ++ rest ≡ magic ++ (to_be 4 (length text) ++ (text ++ rest)) =
      ap (λ t. magic ++ t)
        (append_assoc size text rest ∙ ap (λ m. to_be 4 m ++ (text ++ rest)) n) in
    ap decode_strict shape
    ∙ decode_strict-header (length text) (text ++ rest) h
    ∙ rw (
      le→ltb_false (14 + length (text ++ rest)) (14 + length text)
          (omega (arith, length-append text rest)),
      take-append (length text) text rest refl,
      length-encode text,
    )

-- A proper prefix of a frame asks for more bytes; it is never refused and never read as a frame.
pub decode_strict-prefix :
    (text : Bytes) (k : ℕ)
    → length text < 2 ^ 32
    → k < length (encode text)
    → decode_strict (take k (encode text)) ≡ need_more
unfolding decode_strict encode
decode_strict-prefix text k h lt = elim (Bool-cases (ltb k 14)) [
  | inl short ↦
      let l = ltb→lt k 14 short in
      rw (
        decode_strict,
        lt→ltb (length (take k (encode text))) 14 (omega (arith, l, length-take k (encode text))),
      )
  | inr long ↦
      let l = ltb_false→le k 14 long in
      let n = fits_u32 text h in
      let head = magic ++ to_be 4 (length text % u32_mod) in
      let len_head : length head ≡ 14 = omega (arith, length-to_be 4 (length text % u32_mod)) in
      let at : k ≡ 14 + (k - 14) = omega (arith, l) in
      let shape : take k (encode text) ≡ magic ++ (to_be 4 (length text) ++ take (k - 14) text) =
        ap (λ j. take j (encode text)) at
        ∙ take-append_add 14 (k - 14) head text len_head
        ∙ ap (λ m. magic ++ (to_be 4 m ++ take (k - 14) text)) n in
      ap decode_strict shape
      ∙ decode_strict-header (length text) (take (k - 14) text) h
      ∙ rw (
          lt→ltb (14 + length (take (k - 14) text)) (14 + length text)
            (omega (arith, l, lt, length-encode text, length-take (k - 14) text)))
]
