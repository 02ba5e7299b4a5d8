-- ===== src/Crypto/Toy.antt =====
-- An instance of the other crates' functions that meets the laws: no secrecy, a constant tag.
use pcsuite_rs.Base.{
  ◌+◌, ◌-◌, ◌≡◌, refl, sym, arith, ◌++◌, some, length, replicate, take, length-append, take-append,
  ap, some,
}
use pcsuite_rs.Base.Wire.{Bytes}
use pcsuite_rs.Crypto.{Primitives, Laws}

abbrev pub toy_tag : Bytes
toy_tag = replicate 16 0

abbrev pub toy : Primitives
toy = record {
  sha256 = λ m. replicate 32 1;
  cbc_encrypt = λ k m. m;
  cbc_decrypt = λ k m. some m;
  gcm16_encrypt = λ k n m a. some (m ++ toy_tag);
  gcm16_decrypt = λ k n m a. some (take (length m - 16) m);
  gcm12_encrypt = λ k n m a. some (m ++ toy_tag);
  ctr_apply = λ k c m. m;
  hex_encode = λ m. m;
  hex_decode = λ m. some m;
}

toy_length : (m : Bytes) → length (m ++ toy_tag) ≡ length m + 16
toy_length m = length-append m toy_tag

toy_decrypt : (m : Bytes) → some (take (length (m ++ toy_tag) - 16) (m ++ toy_tag)) ≡ some m
toy_decrypt m =
    let n : length (m ++ toy_tag) - 16 ≡ length m = omega (arith, toy_length m) in
    rw n (ap some (take-append (length m) m toy_tag refl))

toy_blob : (m blob : Bytes) → some (m ++ toy_tag) ≡ some blob → m ++ toy_tag ≡ blob
toy_blob m blob e = cc

pub toy-Laws : Laws toy
toy-Laws = record {
  length-sha256 = λ m. refl;
  cbc_inverse = λ k m. refl;
  hex_inverse = λ m. refl;
  gcm16_inverse =
      λ k n m a blob e. let e' = toy_blob m blob e in rw (← e') (toy_length m, toy_decrypt m);
  gcm12_is_ctr = λ k n m a blob h e. (toy_tag, refl, sym (toy_blob m blob e));
  length-ctr_apply = λ k c m. refl;
  ctr_inverse = λ k c m. refl;
}
