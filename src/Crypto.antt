-- ===== src/Crypto.antt =====
-- crates/pcsuite-crypto/src/lib.rs: the two crypto recipes. The ciphers, SHA-256 and hex come from
-- other crates and are parameters; what the crate adds to them is modelled: key and nonce checks, the
-- framing of plaintext, the tag split, the counter block and RFC 2104.
pub mod Sign
pub mod Gcm
pub mod Toy
mod Tests
use pcsuite_rs.Base.{
  ◌⊎◌, inl, inr, refl, ℕ, ◌+◌, ◌≤◌, ◌<◌, ◌≡◌, List, [], ◌∷◌, ◌++◌, Option, none, some, length,
}
use pcsuite_rs.Base.Wire.{Bytes}

pub data CryptoError : Type 0 where
  bad_length crypt utf8 : CryptoError

pub data Crypted {ℓ} (A : Type ℓ) : Type ℓ where
  good : A → Crypted A
  bad : CryptoError → Crypted A

infixl 5 ◌>>=◌
abbrev pub ◌>>=◌ {ℓ κ} : {A : Type ℓ} {B : Type κ} → Crypted A → (A → Crypted B) → Crypted B
good a >>= f = f a
bad e >>= f = bad e

-- `.map_err(|_| e)` on a call that fails without detail
abbrev pub or_bad {ℓ} : {A : Type ℓ} → Option A → CryptoError → Crypted A
or_bad (some a) e = good a
or_bad none e = bad e

pub Crypted-cases {ℓ} :
    {A : Type ℓ} (r : Crypted A) → ((e : CryptoError) × (r ≡ bad e)) ⊎ ((a : A) × (r ≡ good a))
Crypted-cases (bad e) = inl (e, refl)
Crypted-cases (good a) = inr (a, refl)

-- The functions of the crates `sha2`, `cbc`, `aes-gcm`, `ctr` and `hex` that the code calls.
pub record Primitives : Type 0 where
  pub sha256 : Bytes → Bytes
  -- AES-256-CBC with PKCS7 and a zero IV: key, text.
  pub cbc_encrypt : Bytes → Bytes → Bytes
  pub cbc_decrypt : Bytes → Bytes → Option Bytes
  -- AES-256-GCM with a 16-byte and with a 12-byte nonce: key, nonce, message, additional data.
  pub gcm16_encrypt : Bytes → Bytes → Bytes → Bytes → Option Bytes
  pub gcm16_decrypt : Bytes → Bytes → Bytes → Bytes → Option Bytes
  pub gcm12_encrypt : Bytes → Bytes → Bytes → Bytes → Option Bytes
  -- `Ctr32BE` over AES-256: key, 16-byte counter block, data.
  pub ctr_apply : Bytes → Bytes → Bytes → Bytes
  pub hex_encode : Bytes → Bytes
  pub hex_decode : Bytes → Option Bytes

-- What those crates document. GCM is CTR from the block behind `J0` with a 16-byte tag appended, and for
-- a 12-byte nonce `J0` is the nonce and the number 1 (NIST SP 800-38D).
pub record Laws (p : Primitives) : Type 0 where
  pub length-sha256 : (m : Bytes) → length (p.sha256 m) ≡ 32
  pub cbc_inverse : (k m : Bytes) → p.cbc_decrypt k (p.cbc_encrypt k m) ≡ some m
  pub hex_inverse : (m : Bytes) → p.hex_decode (p.hex_encode m) ≡ some m
  pub gcm16_inverse :
      (k n m a blob : Bytes)
      → p.gcm16_encrypt k n m a ≡ some blob
      → (length blob ≡ length m + 16) × (p.gcm16_decrypt k n blob a ≡ some m)
  pub gcm12_is_ctr :
      (k n m a blob : Bytes)
      → length n ≡ 12
      → p.gcm12_encrypt k n m a ≡ some blob
      → (tag : Bytes) × (length tag ≡ 16)
        × (blob ≡ p.ctr_apply k (n ++ (0 ∷ 0 ∷ 0 ∷ 2 ∷ [])) m ++ tag)
  pub length-ctr_apply : (k c m : Bytes) → length (p.ctr_apply k c m) ≡ length m
  pub ctr_inverse : (k c m : Bytes) → p.ctr_apply k c (p.ctr_apply k c m) ≡ m
