-- ===== src/Base/Text/Decimal.antt =====
-- `n.to_string()` gives different texts for different numbers.
use pcsuite_rs.Base.{
  ℕ, zero, suc, ◌+◌, ◌*◌, ◌/◌, ◌%◌, ◌^◌, ◌<◌, ◌≡◌, ap, sym, ◌∙◌, [], ◌∷◌, some, ltb, arith,
  Bool-cases, inl, inr, lt→ltb, ltb→lt,
}
use native.Mathlib.Nat.{pow-suc}
use pcsuite_rs.Base.Text.{digit_of, digits_from, decimal_loop, to_decimal}
use pcsuite_rs.Base.Text.Hex.{digits_from-concat}

digit_of-decimal : (d : ℕ) → d < 10 → digit_of 10 (48 + d) ≡ some d
digit_of-decimal d h = ground arith

digits_from-decimal_loop :
    (limit fuel n : ℕ)
    → n < limit
    → n < 10 ^ fuel
    → digits_from 10 limit 0 (decimal_loop fuel n) ≡ some n
unfolding digits_from
digits_from-decimal_loop limit zero n h k = ap some (omega arith)
digits_from-decimal_loop limit (suc fuel) n h k = elim (Bool-cases (ltb n 10)) [
  | inl low ↦
      let z : 0 * 10 + n ≡ n = omega arith in
      rw (low, digits_from, digit_of-decimal n (ltb→lt n 10 low), z, lt→ltb n limit h)
  | inr high ↦
      let ih =
        digits_from-decimal_loop limit fuel (n / 10) (omega arith)
          (let p = pow-suc 10 fuel in omega arith) in
      let e : n / 10 * 10 + n % 10 ≡ n = omega arith in
      rw (
        high,
        digits_from-concat 10 limit 0 (decimal_loop fuel (n / 10)) ((48 + n % 10) ∷ []),
        ih,
        digits_from,
        digit_of-decimal (n % 10) (omega arith),
        e,
        lt→ltb n limit h,
      )
]

some_injective : {m n : ℕ} → some m ≡ some n → m ≡ n
some_injective {m} {n} e = cc

pub to_decimal_injective :
    (m n : ℕ) → m < 10 ^ 20 → n < 10 ^ 20 → to_decimal m ≡ to_decimal n → m ≡ n
unfolding to_decimal
to_decimal_injective m n hm hn e = some_injective (
    sym (digits_from-decimal_loop (10 ^ 20) 20 m hm hm)
    ∙ ap (digits_from 10 (10 ^ 20) 0) e
    ∙ digits_from-decimal_loop (10 ^ 20) 20 n hn hn)
