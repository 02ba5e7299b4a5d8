-- ===== src/Ruying/Sound.antt =====
-- What `parse` accepts: crates/pcsuite-proto/src/ruying.rs.
use pcsuite_rs.Base.{
  subst, ℕ, ◌+◌, ◌-◌, ◌%◌, ◌≤◌, ◌≡◌, ap, sym, ◌∙◌, ◌∷◌, ◌++◌, length, arith, slice, take, drop,
  get_or, length-take, length-drop, drop_cut, drop_cons, drop_all, append-nil, append_assoc,
  take_add, drop-drop,
}
use pcsuite_rs.Base.Wire.{
  Bytes, IsBytes, from_be, to_be-from_be, from_be-take_lt, IsBytes-take, IsBytes-drop,
}
use pcsuite_rs.Base.Outcome.{ok, usize_mod, u32_mod}
use pcsuite_rs.Ruying.{RuyingFrame, build, frame, parse, parse_inner}
use pcsuite_rs.Ruying.RoundTrip.{IsWellFormed}

-- A 30-byte inner header is its fields, one behind the other.
header_fields :
    (h : Bytes)
    → length h ≡ 30
    → h
      ≡ get_or h 0 0
        ∷ (slice 1 7 h
            ++ (slice 7 13 h ++ (get_or h 13 0 ∷ get_or h 14 0 ∷ (slice 15 26 h ++ slice 26 30 h))))
header_fields h n =
    drop_cons 0 h 0 (omega arith)
    ∙ ap (λ t. get_or h 0 0 ∷ t)
        (drop_cut 1 6 h
          ∙ ap (λ t. slice 1 7 h ++ t)
              (drop_cut 7 6 h
                ∙ ap (λ t. slice 7 13 h ++ t)
                    (drop_cons 13 h 0 (omega arith)
                      ∙ ap (λ t. get_or h 13 0 ∷ t)
                          (drop_cons 14 h 0 (omega arith)
                            ∙ ap (λ t. get_or h 14 0 ∷ t)
                                (drop_cut 15 11 h
                                  ∙ ap (λ t. slice 15 26 h ++ t)
                                      (drop_cut 26 4 h
                                        ∙ ap (λ t. slice 26 30 h ++ t) (drop_all 30 h (omega arith))
                                        ∙ append-nil _))))))

abbrev inner : Bytes → Bytes
inner buf = take 30 (drop 8 buf)

abbrev read_frame : Bytes → RuyingFrame
read_frame buf = record {
  version = get_or (inner buf) 0 0;
  field_a = slice 1 7 (inner buf);
  field_b = slice 7 13 (inner buf);
  byte_c = get_or (inner buf) 13 0;
  byte_d = get_or (inner buf) 14 0;
  field_e = slice 15 26 (inner buf);
  cipher = slice 38 (8 + from_be (take 8 buf)) buf;
}

record Facts (buf : Bytes) (f : RuyingFrame) (n : ℕ) : Type 0 where
  total : n ≡ 8 + from_be (take 8 buf)
  min_total : 30 ≤ from_be (take 8 buf)
  enough : n ≤ length buf
  version_read : get_or (inner buf) 0 0 ≡ 1
  clen_read : from_be (slice 26 30 (inner buf)) ≡ from_be (take 8 buf) - 30
  fields : f ≡ read_frame buf

parse_inner-frame :
    (buf header : Bytes) (t need : ℕ) {f : RuyingFrame} {n : ℕ}
    → parse_inner buf header t need ≡ ok (frame f n)
    → (n ≡ need)
      × (get_or header 0 0 ≡ 1)
      × (from_be (slice 26 30 header) ≡ t - 30)
      × (f ≡ record {
        version = get_or header 0 0;
        field_a = slice 1 7 header;
        field_b = slice 7 13 header;
        byte_c = get_or header 13 0;
        byte_d = get_or header 14 0;
        field_e = slice 15 26 header;
        cipher = slice 38 need buf;
      })
unfolding parse_inner
parse_inner-frame buf header t need e = ground arith

parse-frame :
    (buf : Bytes) {f : RuyingFrame} {n : ℕ}
    → parse buf ≡ ok (frame f n)
    → (30 ≤ from_be (take 8 buf))
      × ((8 + from_be (take 8 buf)) % usize_mod ≤ length buf)
      × (parse_inner buf (inner buf) (from_be (take 8 buf)) ((8 + from_be (take 8 buf)) % usize_mod)
          ≡ ok (frame f n))
unfolding parse
parse-frame buf e = ground arith

parse-Facts :
    (buf : Bytes) {f : RuyingFrame} {n : ℕ}
    → IsBytes buf
    → parse buf ≡ ok (frame f n)
    → Facts buf f n
parse-Facts buf h e =
    let (low, enough, e') = parse-frame buf e in
    let (size, one, clen, fields) = parse_inner-frame buf (inner buf) _ _ e' in
    let count =
      from_be-take_lt 4 _ (IsBytes-drop 26 _ (IsBytes-take 30 _ (IsBytes-drop 8 buf h))) in
    let fits : (8 + from_be (take 8 buf)) % usize_mod ≡ 8 + from_be (take 8 buf) =
      omega (arith, count, clen, from_be-take_lt 8 buf h) in
    record {
      total = size ∙ fits;
      min_total = low;
      enough = omega (arith, enough, size);
      version_read = one;
      clen_read = clen;
      fields = rw fits at fields;
    }

module _ (buf : Bytes) (h : IsBytes buf) {n : ℕ} (x : Facts buf (read_frame buf) n) where
  length-inner : length (inner buf) ≡ 30
  length-inner = omega (arith, x, length-take 30 (drop 8 buf), length-drop 8 buf)

  inner-IsBytes : IsBytes (inner buf)
  inner-IsBytes = IsBytes-take 30 _ (IsBytes-drop 8 buf h)

  length-cipher : length (read_frame buf).cipher + 38 ≡ n
  length-cipher =
      omega
        (arith, x, length-take (8 + from_be (take 8 buf) - 38) (drop 38 buf), length-drop 38 buf)

  read_frame-IsWellFormed : IsWellFormed (read_frame buf)
  read_frame-IsWellFormed = record {
    version_ok = x.version_read;
    a_len =
        omega (arith, length-inner, length-take 6 (drop 1 (inner buf)), length-drop 1 (inner buf));
    b_len =
        omega (arith, length-inner, length-take 6 (drop 7 (inner buf)), length-drop 7 (inner buf));
    e_len =
        omega
          (arith, length-inner, length-take 11 (drop 15 (inner buf)), length-drop 15 (inner buf));
    cipher_fits =
        omega (arith, x, length-cipher, from_be-take_lt 4 _ (IsBytes-drop 26 _ inner-IsBytes));
  }

  build-read_frame : build (read_frame buf) ≡ take n buf
  unfolding build
  build-read_frame =
      let clen = (read_frame buf).cipher in
      let size : (30 + length clen) % usize_mod ≡ from_be (take 8 buf) =
        omega (arith, length-cipher, x, from_be-take_lt 8 buf h) in
      let short : length clen % u32_mod ≡ from_be (slice 26 30 (inner buf)) =
        omega (arith, length-cipher, x, read_frame-IsWellFormed.cipher_fits) in
      let first =
        to_be-from_be 8 (take 8 buf) (omega (arith, x, length-take 8 buf)) (IsBytes-take 8 buf h) in
      let last =
        to_be-from_be 4 (slice 26 30 (inner buf))
          (omega
            (arith, length-inner, length-take 4 (drop 26 (inner buf)), length-drop 26 (inner buf)))
          (IsBytes-take 4 _ (IsBytes-drop 26 _ inner-IsBytes)) in
      let cut : n ≡ 8 + (30 + (8 + from_be (take 8 buf) - 38)) = omega (arith, x) in
      rw (size, short, first, last)
        (ap (λ t. take 8 buf ++ t)
            (sym (simp append_assoc)
              ∙ ap (λ t. t ++ clen) (sym (header_fields (inner buf) length-inner)))
          ∙ rw (
            cut,
            take_add 8 (30 + (8 + from_be (take 8 buf) - 38)) buf,
            take_add 30 (8 + from_be (take 8 buf) - 38) (drop 8 buf),
            drop-drop 8 30 buf,
          ))

-- Whatever `parse` accepts was written by `build`: the bytes it consumed are the frame's serialisation,
-- the frame's arrays have their sizes and its version is 1, and no byte beyond the buffer is counted.
pub parse_sound :
    (buf : Bytes) {f : RuyingFrame} {n : ℕ}
    → IsBytes buf
    → parse buf ≡ ok (frame f n)
    → IsWellFormed f × (build f ≡ take n buf) × (n ≤ length buf)
parse_sound buf {f} {n} h e =
    let x = parse-Facts buf h e in
    let x' : Facts buf (read_frame buf) n = subst (λ g. Facts buf g n) x.fields x in
    (
      subst IsWellFormed (sym x.fields) (read_frame-IsWellFormed buf h x'),
      ap build x.fields ∙ build-read_frame buf h x',
      x.enough,
    )
