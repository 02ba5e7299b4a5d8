-- ===== src/Pair/Encoding.antt =====
-- Percent encoding and its inverse: crates/pcsuite-core/src/pair.rs.
use pcsuite_rs.Base.{
  ℕ, ◌/◌, ◌%◌, ◌<◌, ◌≡◌, refl, ap, ◌∙◌, true, false, [], ◌∷◌, some, Bool-cases, inl, inr, All,
  arith, ◌==◌,
}
use pcsuite_rs.Base.Wire.{Bytes}
use pcsuite_rs.Base.Utf8.{is_utf8, from_utf8_lossy, from_utf8_lossy-valid}
use pcsuite_rs.Pair.{
  is_unreserved, upper_digit, pct, hex_val, escaped, plain, decode_bytes, pct_decode,
}

hex_val-upper_digit : (d : ℕ) → d < 16 → hex_val (upper_digit d) ≡ some d
hex_val-upper_digit d h = ground (arith, h)

escaped-digits :
    (c : ℕ) → c < 256 → escaped b'%' (upper_digit (c / 16)) (upper_digit (c % 16)) ≡ some c
escaped-digits c h =
    rw (hex_val-upper_digit (c / 16) (omega (arith, h)), hex_val-upper_digit (c % 16) (omega arith))
      (ap some (omega arith))

unreserved_plain : (c : ℕ) → is_unreserved c ≡ true → ((c == b'%') ≡ false) × (plain c ≡ c)
unreserved_plain c h = (ground (arith, h), ground (arith, h))

decode_bytes-unreserved :
    (c : ℕ) (xs : Bytes) → is_unreserved c ≡ true → decode_bytes (c ∷ xs) ≡ c ∷ decode_bytes xs
unfolding decode_bytes
decode_bytes-unreserved c [] h = rw (unreserved_plain c h).1 refl
decode_bytes-unreserved c (x ∷ []) h = rw (unreserved_plain c h).1 refl
decode_bytes-unreserved c (x ∷ (y ∷ xs)) h =
    rw (decode_bytes, (unreserved_plain c h).0, (unreserved_plain c h).1) refl

decode_bytes-pct : (s : Bytes) → All (λ c. c < 256) s → decode_bytes (pct s) ≡ s
unfolding pct decode_bytes
decode_bytes-pct [] ok = refl
decode_bytes-pct (c ∷ s) (h, ok) = elim (Bool-cases (is_unreserved c)) [
  | inl u ↦ rw (pct, u) (decode_bytes-unreserved c (pct s) u ∙ ap (◌∷◌ c) (decode_bytes-pct s ok))
  | inr r ↦ rw (pct, r, decode_bytes, escaped-digits c h) (ap (◌∷◌ c) (decode_bytes-pct s ok))
]

-- A UTF-8 text is read back from its percent encoding.
pub pct_decode-pct : (s : Bytes) → All (λ c. c < 256) s → is_utf8 s ≡ true → pct_decode (pct s) ≡ s
unfolding pct_decode
pct_decode-pct s ok u = ap from_utf8_lossy (decode_bytes-pct s ok) ∙ from_utf8_lossy-valid s u
