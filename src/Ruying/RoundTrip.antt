-- ===== src/Ruying/RoundTrip.antt =====
-- `parse` against `build`: crates/pcsuite-proto/src/ruying.rs.
use pcsuite_rs.Base.{
  ◌+◌, ◌-◌, ◌%◌, ◌<◌, ◌≡◌, refl, ap, ◌∙◌, [], ◌∷◌, ◌++◌, length, le→ltb_false, arith, slice, get_or,
  take-append, drop-append_add, drop-append, take_all, get_or_skip, length-append, append_assoc,
  append-nil,
}
use pcsuite_rs.Base.Wire.{Bytes, to_be, from_be, length-to_be, from_be-to_be}
use pcsuite_rs.Base.Outcome.{ok, index_range, index_range-ok, usize_mod, u32_mod}
use pcsuite_rs.Ruying.{RuyingFrame, build, frame, parse, parse_inner, inner_len, version_byte}

-- The frames that `build` can write: arrays of their sizes, and a ciphertext whose length fits 32 bits.
pub record IsWellFormed (f : RuyingFrame) : Type 0 where
  pub version_ok : f.version ≡ version_byte
  pub a_len : length f.field_a ≡ 6
  pub b_len : length f.field_b ≡ 6
  pub e_len : length f.field_e ≡ 11
  pub cipher_fits : length f.cipher < u32_mod

abbrev pub inner_header : RuyingFrame → Bytes
inner_header f =
    f.version
    ∷ (f.field_a
        ++ (f.field_b
            ++ (f.byte_c ∷ f.byte_d ∷ (f.field_e ++ to_be 4 (length f.cipher % u32_mod)))))

abbrev pub length_prefix : RuyingFrame → Bytes
length_prefix f = to_be 8 ((inner_len + length f.cipher) % usize_mod)

pub build_split :
    (f : RuyingFrame) (rest : Bytes)
    → build f ++ rest ≡ length_prefix f ++ (inner_header f ++ (f.cipher ++ rest))
unfolding build
build_split f rest = simp append_assoc

module _ (f : RuyingFrame) (w : IsWellFormed f) where
  pub length-inner_header : length (inner_header f) ≡ 30
  length-inner_header = omega (
    arith,
    w.a_len,
    w.b_len,
    w.e_len,
    length-append f.field_a
        (f.field_b ++ (f.byte_c ∷ f.byte_d ∷ (f.field_e ++ to_be 4 (length f.cipher % u32_mod)))),
    length-append f.field_b
        (f.byte_c ∷ f.byte_d ∷ (f.field_e ++ to_be 4 (length f.cipher % u32_mod))),
    length-append f.field_e (to_be 4 (length f.cipher % u32_mod)),
    length-to_be 4 (length f.cipher % u32_mod),
  )

  header_a : slice 1 7 (inner_header f) ≡ f.field_a
  header_a = take-append 6 f.field_a _ w.a_len

  header_b : slice 7 13 (inner_header f) ≡ f.field_b
  header_b = rw (drop-append_add 6 0 f.field_a _ w.a_len) (take-append 6 f.field_b _ w.b_len)

  header_c : get_or (inner_header f) 13 0 ≡ f.byte_c
  header_c = get_or_skip 6 6 f.field_a _ 0 w.a_len ∙ get_or_skip 6 0 f.field_b _ 0 w.b_len

  header_d : get_or (inner_header f) 14 0 ≡ f.byte_d
  header_d = get_or_skip 6 7 f.field_a _ 0 w.a_len ∙ get_or_skip 6 1 f.field_b _ 0 w.b_len

  header_e : slice 15 26 (inner_header f) ≡ f.field_e
  header_e =
      rw (drop-append_add 6 8 f.field_a _ w.a_len, drop-append_add 6 2 f.field_b _ w.b_len)
        (take-append 11 f.field_e _ w.e_len)

  header_clen : from_be (slice 26 30 (inner_header f)) ≡ length f.cipher
  header_clen =
      rw
        (
          drop-append_add 6 19 f.field_a _ w.a_len,
          drop-append_add 6 13 f.field_b _ w.b_len,
          drop-append 11 f.field_e _ w.e_len,
          take_all 4 (to_be 4 (length f.cipher % u32_mod)) (omega (arith, length-to_be 4)),
          from_be-to_be 4 (length f.cipher % u32_mod) (omega arith),
        )
        (omega (arith, w.cipher_fits))

  prefix_value : from_be (length_prefix f) ≡ 30 + length f.cipher
  prefix_value =
      rw (from_be-to_be 8 ((inner_len + length f.cipher) % usize_mod) (omega arith))
        (omega (arith, w.cipher_fits))

  length_whole : (rest : Bytes) → length (build f ++ rest) ≡ 38 + length f.cipher + length rest
  length_whole rest = rw (build_split f rest) (
      omega (
        arith,
        length-append (length_prefix f) (inner_header f ++ (f.cipher ++ rest)),
        length-append (inner_header f) (f.cipher ++ rest),
        length-append f.cipher rest,
        length-to_be 8 ((inner_len + length f.cipher) % usize_mod),
        length-inner_header,
      ))

  cipher_read :
      (rest : Bytes) → index_range 38 (38 + length f.cipher) (build f ++ rest) ≡ ok f.cipher
  cipher_read rest =
      let n : 38 + length f.cipher - 38 ≡ length f.cipher = omega arith in
      index_range-ok 38 (38 + length f.cipher) (build f ++ rest) (omega arith)
        (omega (arith, length_whole rest))
      ∙ rw (
        n,
        build_split f rest,
        drop-append_add 8 30 (length_prefix f) (inner_header f ++ (f.cipher ++ rest))
            (length-to_be 8 _),
        drop-append 30 (inner_header f) (f.cipher ++ rest) length-inner_header,
        take-append (length f.cipher) f.cipher rest refl,
      )

  parse_inner-build :
      (rest : Bytes)
      → parse_inner (build f ++ rest) (inner_header f) (30 + length f.cipher) (38 + length f.cipher)
        ≡ ok (frame f (38 + length f.cipher))
  unfolding parse_inner
  parse_inner-build rest = ground (
    arith,
    header_a,
    header_b,
    header_c,
    header_d,
    header_e,
    header_clen,
    cipher_read rest,
    w.version_ok,
  )

  inner_read : (rest : Bytes) → index_range 8 38 (build f ++ rest) ≡ ok (inner_header f)
  inner_read rest =
      index_range-ok 8 38 (build f ++ rest) (omega arith) (omega (arith, length_whole rest))
      ∙ rw (
        build_split f rest,
        drop-append_add 8 0 (length_prefix f) (inner_header f ++ (f.cipher ++ rest))
            (length-to_be 8 _),
        take-append 30 (inner_header f) (f.cipher ++ rest) length-inner_header,
      )

  pub prefix_read : (rest : Bytes) → from_be (slice 0 8 (build f ++ rest)) ≡ 30 + length f.cipher
  prefix_read rest =
      rw
        (
          build_split f rest,
          take-append 8 (length_prefix f) (inner_header f ++ (f.cipher ++ rest)) (length-to_be 8 _),
        )
        prefix_value

  pub length-build : length (build f) ≡ 38 + length f.cipher
  length-build = omega (arith, ap length (append-nil (build f)), length_whole [])

  -- A frame that was built is read back whole, whatever follows it on the stream, and the count of
  -- bytes consumed is the frame's own length.
  pub parse-build : (rest : Bytes) → parse (build f ++ rest) ≡ ok (frame f (length (build f)))
  unfolding parse
  parse-build rest =
      let whole = length_whole rest in
      let need : (8 + (30 + length f.cipher)) % usize_mod ≡ 38 + length f.cipher =
        omega (arith, w.cipher_fits) in
      rw
        (
          le→ltb_false (length (build f ++ rest)) 8 (omega (arith, whole)),
          prefix_read rest,
          le→ltb_false (30 + length f.cipher) 30 (omega arith),
          need,
          le→ltb_false (length (build f ++ rest)) (38 + length f.cipher) (omega (arith, whole)),
          inner_read rest,
          length-build,
        )
        (parse_inner-build rest)
