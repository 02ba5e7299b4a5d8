-- ===== src/Crypto/Sign.antt =====
-- crates/pcsuite-crypto/src/lib.rs: the ConnectFlow sign and HMAC-SHA256.
use pcsuite_rs.Base.{
  ℕ, ◌-◌, ◌≡◌, ap, ◌∙◌, [], ◌∷◌, ◌++◌, true, length, ltb, if◌then◌else◌, replicate, splice, bit_xor,
}
use pcsuite_rs.Base.Wire.{Bytes, codes}
use pcsuite_rs.Base.Utf8.{is_utf8}
use pcsuite_rs.Crypto.{bad_length, crypt, utf8, Crypted, good, bad, ◌>>=◌, or_bad, Primitives, Laws}

-- `for (i, b) in padded.iter().enumerate() { pad[i] ^= b }` on a pad of the constant byte `c`.
unfoldable pub xor_pad : ℕ → Bytes → Bytes
xor_pad c [] = []
xor_pad c (b ∷ bs) = bit_xor c b ∷ xor_pad c bs

module _ (p : Primitives) where
  -- The key in its 64-byte block: hashed first if it is longer.
  unfoldable pub padded_key : Bytes → Bytes
  padded_key key =
      if ltb 64 (length key)
      then splice 0 (p.sha256 key) (replicate 64 0)
      else splice 0 key (replicate 64 0)

  unfoldable pub hmac_sha256 : Bytes → Bytes → Bytes
  hmac_sha256 key msg =
      let padded = padded_key key in
      let inner = p.sha256 (xor_pad 0x36 padded ++ msg) in p.sha256 (xor_pad 0x5c padded ++ inner)

  unfoldable pub derive_sign_key : Bytes → Bytes → Bytes
  derive_sign_key stored_seed seed_b = p.sha256 (stored_seed ++ seed_b)

  unfoldable pub make_sign : Bytes → Bytes → Bytes → Bytes → Bytes → Bytes
  unfolding derive_sign_key
  make_sign open_id conn_id token stored_seed seed_b =
      let key = derive_sign_key stored_seed seed_b in
      let pt = open_id ++ (codes "|" ++ (conn_id ++ (codes "|" ++ token))) in
      p.hex_encode (p.cbc_encrypt key pt)

  unfoldable pub decrypt_sign : Bytes → Bytes → Bytes → Crypted Bytes
  unfolding derive_sign_key
  decrypt_sign sign_hex stored_seed seed_b = do
    let key = derive_sign_key stored_seed seed_b
    ct ← or_bad (p.hex_decode sign_hex) bad_length
    pt ← or_bad (p.cbc_decrypt key ct) crypt
    if is_utf8 pt then good pt else bad utf8

module _ (p : Primitives) (laws : Laws p) where
  -- `decrypt_sign` recovers `openId|connId|token` from the sign made with the same two seeds, and also
  -- with any two seeds that read the same one behind the other.
  pub decrypt_sign-make_sign :
      (open_id conn_id token stored_seed seed_b stored' seed' : Bytes)
      → stored_seed ++ seed_b ≡ stored' ++ seed'
      → is_utf8 (open_id ++ (codes "|" ++ (conn_id ++ (codes "|" ++ token)))) ≡ true
      → decrypt_sign p (make_sign p open_id conn_id token stored_seed seed_b) stored' seed'
        ≡ good (open_id ++ (codes "|" ++ (conn_id ++ (codes "|" ++ token))))
  unfolding decrypt_sign make_sign
  decrypt_sign-make_sign open_id conn_id token stored_seed seed_b stored' seed' same text =
      let pt = open_id ++ (codes "|" ++ (conn_id ++ (codes "|" ++ token))) in
      let sign = λ (seeds : Bytes). p.hex_encode (p.cbc_encrypt (p.sha256 seeds) pt) in
      ap (λ s. decrypt_sign p (sign s) stored' seed') same
      ∙ rw (
        decrypt_sign,
        laws.hex_inverse (p.cbc_encrypt (p.sha256 (stored' ++ seed')) pt),
        laws.cbc_inverse (p.sha256 (stored' ++ seed')) pt,
        text,
      )

-- The formula of RFC 2104 for a 64-byte block: a key longer than the block is hashed, and the key is
-- filled up with zeros.
abbrev pub rfc_key : (Bytes → Bytes) → Bytes → Bytes
rfc_key hash key =
    let k = if ltb 64 (length key) then hash key else key in k ++ replicate (64 - length k) 0

abbrev pub rfc2104 : (Bytes → Bytes) → Bytes → Bytes → Bytes
rfc2104 hash key msg =
    hash (xor_pad 0x5c (rfc_key hash key) ++ hash (xor_pad 0x36 (rfc_key hash key) ++ msg))
