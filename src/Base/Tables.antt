-- ===== src/Base/Tables.antt =====
-- Facts about a small range of numbers, checked value by value.
use pcsuite_rs.Base.{
  ℕ, zero, suc, ◌<◌, ◌≡◌, refl, Bool, true, false, ◌&&◌, ◌==◌, ==_iff, arith, if◌then◌else◌,
  Bool-cases, inl, inr, bit_and, bit_or, bit_xor,
}

-- Whether a test holds of each number below a bound.
holds_below : (ℕ → Bool) → ℕ → Bool
holds_below test zero = true
holds_below test (suc top) = let below = holds_below test top in if test top then below else false

look_up :
    (test : ℕ → Bool) {bound : ℕ} (n : ℕ)
    → n < bound
    → holds_below test bound ≡ true
    → test n ≡ true
unfolding holds_below
look_up test {bound = zero} n within table = absurd (omega arith)
look_up test {bound = suc top} n within table = elim (Bool-cases (test top)) [
  | inr fails ↦ absurd (ground arith)
  | inl passes ↦ elim (Bool-cases (n == top)) [
    | inl same ↦ rw ((==_iff n top).0 same) passes
    | inr other ↦ look_up test {bound = top} n (ground arith) (ground arith)
  ]
]

abbrev mask_test : ℕ → ℕ → Bool
mask_test m b = bit_xor (bit_xor b m) m == b

mask_table : holds_below (λ m. holds_below (mask_test m) 256) 256 ≡ true
unfolding holds_below
mask_table = refl

-- Masking a byte twice gives it back.
pub xor_twice : (b m : ℕ) → b < 256 → m < 256 → bit_xor (bit_xor b m) m ≡ b
xor_twice b m hb hm =
    let row = look_up (λ m. holds_below (mask_test m) 256) m hm mask_table in
    (==_iff _ b).0 (look_up (mask_test m) b hb row)

abbrev length_test : ℕ → Bool
length_test n = bit_and (bit_or 0x80 n) 0x7f == n && bit_and (bit_or 0x80 n) 0x80 == 0x80

length_table : holds_below length_test 128 ≡ true
unfolding holds_below
length_table = refl

both : (a b : Bool) → a && b ≡ true → (a ≡ true) × (b ≡ true)
both true true h = (refl, refl)
both true false h = absurd cc
both false b h = absurd cc

-- A length of seven bits is read back from a byte that also has the mask bit.
pub low_bits : (n : ℕ) → n < 128 → bit_and (bit_or 0x80 n) 0x7f ≡ n
low_bits n h = (==_iff _ n).0 ((both _ _ (look_up length_test n h length_table)).0)

pub high_bit : (n : ℕ) → n < 128 → bit_and (bit_or 0x80 n) 0x80 ≡ 0x80
high_bit n h = (==_iff _ 0x80).0 ((both _ _ (look_up length_test n h length_table)).1)

abbrev opcode_test : ℕ → Bool
opcode_test n = bit_and (bit_or 0x80 n) 0x0f == n

opcode_table : holds_below opcode_test 16 ≡ true
unfolding holds_below
opcode_table = refl

pub low_nibble : (n : ℕ) → n < 16 → bit_and (bit_or 0x80 n) 0x0f ≡ n
low_nibble n h = (==_iff _ n).0 (look_up opcode_test n h opcode_table)
