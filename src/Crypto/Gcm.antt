-- ===== src/Crypto/Gcm.antt =====
-- crates/pcsuite-crypto/src/lib.rs: AES-256-GCM for 8904 ("vgcm") and for the vdfs planes.
use pcsuite_rs.Base.{
  ◌+◌, ◌-◌, ◌≤◌, ◌≡◌, refl, ap, ◌∙◌, [], ◌∷◌, ◌++◌, some, length, ltb, if◌then◌else◌, take, drop,
  replicate, splice, arith, le→ltb_false, length-append, length-take, take-append, drop-append,
  take-append_add, drop-append_add, append_assoc, Option-cases, inl, inr,
}
use pcsuite_rs.Base.Wire.{Bytes}
use pcsuite_rs.Crypto.{bad_length, crypt, Crypted, good, bad, ◌>>=◌, or_bad, Primitives, Laws}

unfoldable pub gcm_setup : Bytes → Bytes → Crypted (Bytes × Bytes)
gcm_setup key iv =
    if ltb (length key) 32
    then bad bad_length
    else if ltb (length iv) 16
    then bad bad_length
    else good (take 32 key, take 16 iv)

unfoldable pub gcm12_nonce : Bytes → Crypted Bytes
gcm12_nonce iv = if ltb (length iv) 12 then bad bad_length else good (take 12 iv)

unfoldable pub gcm12_key : Bytes → Crypted Bytes
gcm12_key key = if ltb (length key) 32 then bad bad_length else good (take 32 key)

-- `counter[..12].copy_from_slice(&n); counter[15] = 2`
unfoldable pub counter_block : Bytes → Bytes
counter_block n = splice 15 (2 ∷ []) (splice 0 n (replicate 16 0))

module _ (p : Primitives) where
  unfoldable pub gcm_encrypt : Bytes → Bytes → Bytes → Bytes → Crypted Bytes
  unfolding gcm_setup
  gcm_encrypt plain key iv aad = do
    (k, nonce) ← gcm_setup key iv
    or_bad (p.gcm16_encrypt k nonce plain aad) crypt

  unfoldable pub gcm_decrypt : Bytes → Bytes → Bytes → Bytes → Crypted Bytes
  unfolding gcm_setup
  gcm_decrypt blob key iv aad =
      if ltb (length blob) 16
      then bad bad_length
      else do (k, nonce) ← gcm_setup key iv; or_bad (p.gcm16_decrypt k nonce blob aad) crypt

  -- The ciphertext and the tag.
  unfoldable pub gcm12_seal : Bytes → Bytes → Bytes → Crypted (Bytes × Bytes)
  unfolding gcm12_key gcm12_nonce
  gcm12_seal plain key iv = do
    k ← gcm12_key key
    n ← gcm12_nonce iv
    blob ← or_bad (p.gcm12_encrypt k n plain []) crypt
    let tag_start = length blob - 16
    good (take tag_start blob, drop tag_start blob)

  unfoldable pub gcm12_open_noauth : Bytes → Bytes → Bytes → Crypted Bytes
  unfolding gcm12_key gcm12_nonce
  gcm12_open_noauth ciphertext key iv = do
    k ← gcm12_key key
    n ← gcm12_nonce iv
    good (p.ctr_apply k (counter_block n) ciphertext)

module _ (p : Primitives) (laws : Laws p) where
  -- What `gcm_encrypt` made is decrypted by `gcm_decrypt` under the same key, nonce and data.
  pub gcm_decrypt-gcm_encrypt :
      (plain key iv aad : Bytes) {blob : Bytes}
      → gcm_encrypt p plain key iv aad ≡ good blob
      → gcm_decrypt p blob key iv aad ≡ good plain
  unfolding gcm_encrypt gcm_decrypt
  gcm_decrypt-gcm_encrypt plain key iv aad {blob} e =
      ground (arith, laws.gcm16_inverse (take 32 key) (take 16 iv) plain aad blob)

  counter_block-append : (n : Bytes) → length n ≡ 12 → counter_block n ≡ n ++ (0 ∷ 0 ∷ 0 ∷ 2 ∷ [])
  unfolding counter_block
  counter_block-append n h =
      let e : 0 + length n ≡ 12 = omega (arith, h) in
      rw (
        e,
        take-append_add 12 3 n (0 ∷ 0 ∷ 0 ∷ 0 ∷ []) h,
        drop-append_add 12 4 n (0 ∷ 0 ∷ 0 ∷ 0 ∷ []) h,
        append_assoc n (0 ∷ 0 ∷ 0 ∷ []) (2 ∷ []),
      )

  record Sealed (plain key iv ct tag : Bytes) : Type 0 where
    blob : Bytes
    key_long : 32 ≤ length key
    iv_long : 12 ≤ length iv
    encrypted : p.gcm12_encrypt (take 32 key) (take 12 iv) plain [] ≡ some blob
    ct_is : ct ≡ take (length blob - 16) blob
    tag_is : tag ≡ drop (length blob - 16) blob

  gcm12_seal-Sealed :
      (plain key iv : Bytes) {ct tag : Bytes}
      → gcm12_seal p plain key iv ≡ good (ct, tag)
      → Sealed plain key iv ct tag
  unfolding gcm12_seal
  gcm12_seal-Sealed plain key iv e =
      elim (Option-cases (p.gcm12_encrypt (take 32 key) (take 12 iv) plain [])) [
        | inl none_e ↦ absurd (ground arith)
        | inr (blob, some_e) ↦ record {
          blob = blob;
          key_long = ground arith;
          iv_long = ground arith;
          encrypted = some_e;
          ct_is = ground arith;
          tag_is = ground arith;
        }
      ]

  -- What was sealed is opened again without the tag; the ciphertext is as long as the text, and the tag
  -- has 16 bytes.
  pub gcm12_open_noauth-gcm12_seal :
      (plain key iv : Bytes) {ct tag : Bytes}
      → gcm12_seal p plain key iv ≡ good (ct, tag)
      → (gcm12_open_noauth p ct key iv ≡ good plain)
        × (length ct ≡ length plain)
        × (length tag ≡ 16)
  unfolding gcm12_open_noauth
  gcm12_open_noauth-gcm12_seal plain key iv {ct} {tag} e =
      let s = gcm12_seal-Sealed plain key iv e in
      let k = take 32 key in
      let n = take 12 iv in
      let len_n : length n ≡ 12 = omega (arith, s.iv_long, length-take 12 iv) in
      let c = n ++ (0 ∷ 0 ∷ 0 ∷ 2 ∷ []) in
      let (t, len_t, shape) = laws.gcm12_is_ctr k n plain [] s.blob len_n s.encrypted in
      let body = p.ctr_apply k c plain in
      let size : length s.blob - 16 ≡ length body =
        omega (arith, len_t, ap length shape, length-append body t) in
      let ct_body : ct ≡ body =
        s.ct_is ∙ rw (size, shape) (take-append (length body) body t refl) in
      let tag_t : tag ≡ t = s.tag_is ∙ rw (size, shape) (drop-append (length body) body t refl) in
      (
        rw
            (
              le→ltb_false (length key) 32 s.key_long,
              le→ltb_false (length iv) 12 s.iv_long,
              counter_block-append n len_n,
              ct_body,
            )
            (ap good (laws.ctr_inverse k c plain)),
        rw ct_body (laws.length-ctr_apply k c plain),
        rw tag_t len_t,
      )
