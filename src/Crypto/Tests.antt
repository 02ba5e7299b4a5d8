-- ===== src/Crypto/Tests.antt =====
-- The crypto theorems at a concrete instance of the other crates' functions: a toy in which the ciphers
-- are the identity, which meets the documented laws.
use pcsuite_rs.Base.{◌≡◌, refl, [], ◌++◌, replicate}
use pcsuite_rs.Base.Wire.{Bytes, codes}
use pcsuite_rs.Base.Utf8.{is_utf8}
use pcsuite_rs.Crypto.{bad_length, good, bad}
use pcsuite_rs.Crypto.Sign.{make_sign, decrypt_sign, decrypt_sign-make_sign}
use pcsuite_rs.Crypto.Gcm.{gcm_encrypt, gcm12_seal}
use pcsuite_rs.Crypto.Toy.{toy, toy-Laws}

abbrev key : Bytes
key = replicate 32 0x30

abbrev iv : Bytes
iv = replicate 16 0x41

short_key : gcm12_seal toy (codes "hi") (codes "short") iv ≡ bad bad_length
unfolding gcm12_seal
short_key = refl

decrypt_sign-make_sign_example :
    decrypt_sign toy
      (make_sign toy (codes "id") (codes "c1") (codes "tok") (codes "ab") (codes "cd"))
      (codes "a")
      (codes "bcd")
    ≡ good (codes "id|c1|tok")
unfolding is_utf8
decrypt_sign-make_sign_example =
    decrypt_sign-make_sign toy toy-Laws (codes "id") (codes "c1") (codes "tok") (codes "ab")
      (codes "cd") (codes "a") (codes "bcd") refl refl

encrypted : gcm_encrypt toy (codes "hi") key iv [] ≡ good (codes "hi" ++ replicate 16 0)
unfolding gcm_encrypt
encrypted = refl

sealed : gcm12_seal toy (codes "hi") key iv ≡ good (codes "hi", replicate 16 0)
unfolding gcm12_seal
sealed = refl
