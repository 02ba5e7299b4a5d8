-- ===== src/Base/Outcome.antt =====
-- What a Rust call gives back: a value or a panic. Indexing out of range panics; arithmetic on `usize`
-- wraps at 2 ^ 64 (a release build on a 64-bit target).
use pcsuite_rs.Base.{ℕ, ◌^◌, ◌≤◌, ◌≡◌, List, length, leb, ◌&&◌, if◌then◌else◌, slice, drop, le→leb}

pub data Outcome {ℓ} (A : Type ℓ) : Type ℓ where
  ok : A → Outcome A
  panic : Outcome A

infixl 5 ◌>>=◌
abbrev pub ◌>>=◌ {ℓ κ} : {A : Type ℓ} {B : Type κ} → Outcome A → (A → Outcome B) → Outcome B
ok a >>= f = f a
panic >>= f = panic

module _ {ℓ} {A : Type ℓ} where
  -- `&xs[i..j]`
  abbrev pub index_range : ℕ → ℕ → List A → Outcome (List A)
  index_range i j xs = if leb i j && leb j (length xs) then ok (slice i j xs) else panic

  -- `&xs[i..]`
  abbrev pub index_from : ℕ → List A → Outcome (List A)
  index_from i xs = if leb i (length xs) then ok (drop i xs) else panic

  pub index_range-ok :
      (i j : ℕ) (xs : List A) → i ≤ j → j ≤ length xs → index_range i j xs ≡ ok (slice i j xs)
  index_range-ok i j xs h k = rw (le→leb i j h, le→leb j (length xs) k)

abbrev pub usize_mod : ℕ
usize_mod = 2 ^ 64

abbrev pub u32_mod : ℕ
u32_mod = 2 ^ 32

abbrev pub u16_mod : ℕ
u16_mod = 2 ^ 16
