-- ===== src/Base/Int.antt =====
-- Integers over the native numbers: `i64` values.
use pcsuite_rs.Base.{
  ℕ, zero, suc, ◌+◌, ◌^◌, Bool, false, [], ◌∷◌, Option, none, some, ◌==◌, if◌then◌else◌,
}
use pcsuite_rs.Base.Wire.{Bytes}
use pcsuite_rs.Base.Maybe.{◌>>=◌}
use pcsuite_rs.Base.Text.{from_str_radix, to_decimal}

-- `negsuc n` is -(n + 1).
pub data ℤ : Type 0 where
  pos : ℕ → ℤ
  negsuc : ℕ → ℤ

abbrev pub is_equal : ℤ → ℤ → Bool
is_equal (pos m) (pos n) = m == n
is_equal (negsuc m) (negsuc n) = m == n
is_equal _ _ = false

abbrev pub negated : ℕ → ℤ
negated zero = pos 0
negated (suc n) = negsuc n

-- `s.parse::<i64>()`
unfoldable pub parse_i64 : Bytes → Option ℤ
parse_i64 [] = none
parse_i64 (b ∷ []) = do n ← from_str_radix 10 (2 ^ 63) (b ∷ []); some (pos n)
parse_i64 (b ∷ (c ∷ bs)) =
    if b == b'-'
    then if c == b'+'
      then none
      else (do n ← from_str_radix 10 (2 ^ 63 + 1) (c ∷ bs); some (negated n))
    else do n ← from_str_radix 10 (2 ^ 63) (b ∷ (c ∷ bs)); some (pos n)

-- `n.to_string()`
unfoldable pub show_i64 : ℤ → Bytes
show_i64 (pos n) = to_decimal n
show_i64 (negsuc n) = b'-' ∷ to_decimal (suc n)
