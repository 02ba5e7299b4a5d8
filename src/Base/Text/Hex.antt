-- ===== src/Base/Text/Hex.antt =====
-- `format!("{n:x}")` is read back by `from_str_radix`, and by what trims and cuts the text before.
use pcsuite_rs.Base.{
  ℕ, zero, suc, ◌+◌, ◌*◌, ◌/◌, ◌%◌, ◌^◌, ◌<◌, ◌≡◌, ◌≢◌, refl, ap, ◌∙◌, [], ◌∷◌, ◌++◌, Option, none,
  some, length, ltb, ==-≢, length-append, arith, All, Bool-cases, Option-cases, inl, inr, lt→ltb,
  ltb→lt, ltb_false→le,
}
use native.Mathlib.Nat.{pow-suc}
use pcsuite_rs.Base.Wire.{Bytes}
use pcsuite_rs.Base.Maybe.{◌>>=◌}
use pcsuite_rs.Base.Text.{
  white_prefix, trim_start_loop, trim_start, trim_end, trim, split_once, before_first, digit_of,
  digits_from, from_str_radix, hex_digit, hex_loop, to_hex,
}

-- A visible ASCII character that is neither `;` nor `+`.
pub record IsPlain (b : ℕ) : Type 0 where
  pub visible : 32 < b
  pub ascii : b < 0x7f
  pub no_semicolon : b ≢ b';'
  pub no_plus : b ≢ b'+'

hex_digit-IsPlain : (d : ℕ) → d < 16 → IsPlain (hex_digit d)
hex_digit-IsPlain d h = elim (Bool-cases (ltb d 10)) [
  | inl low ↦
      let l = ltb→lt d 10 low in
      rw low (record {
        visible = omega arith;
        ascii = omega arith;
        no_semicolon = λ e. omega arith;
        no_plus = λ e. omega arith;
      })
  | inr high ↦
      let l = ltb_false→le d 10 high in
      rw high (record {
        visible = omega arith;
        ascii = omega arith;
        no_semicolon = λ e. omega arith;
        no_plus = λ e. omega arith;
      })
]

digit_of-hex_digit : (d : ℕ) → d < 16 → digit_of 16 (hex_digit d) ≡ some d
digit_of-hex_digit d h = ground arith

IsPlain-append : (xs ys : Bytes) → All IsPlain xs → All IsPlain ys → All IsPlain (xs ++ ys)
IsPlain-append [] ys h k = k
IsPlain-append (x ∷ xs) ys (h, hs) k = (h, IsPlain-append xs ys hs k)

hex_loop-IsPlain : (fuel n : ℕ) → All IsPlain (hex_loop fuel n)
hex_loop-IsPlain zero n = tt
hex_loop-IsPlain (suc fuel) n = elim (Bool-cases (ltb n 16)) [
  | inl low ↦ rw low (hex_digit-IsPlain n (ltb→lt n 16 low), tt)
  | inr high ↦ rw high (
      IsPlain-append (hex_loop fuel (n / 16)) (hex_digit (n % 16) ∷ [])
        (hex_loop-IsPlain fuel (n / 16)) (hex_digit-IsPlain (n % 16) (omega arith), tt))
]

pub digits_from-concat :
    (radix limit acc : ℕ) (xs ys : Bytes)
    → digits_from radix limit acc (xs ++ ys)
      ≡ (digits_from radix limit acc xs >>= λ a. digits_from radix limit a ys)
unfolding digits_from
digits_from-concat radix limit acc [] ys = refl
digits_from-concat radix limit acc (b ∷ xs) ys = elim (Option-cases (digit_of radix b)) [
  | inl none_e ↦ rw (digits_from, none_e)
  | inr (v, e) ↦ elim (Bool-cases (ltb (acc * radix + v) limit)) [
    | inl fits ↦ rw (digits_from, e, fits) (digits_from-concat radix limit (acc * radix + v) xs ys)
    | inr over ↦ rw (digits_from, e, over)
  ]
]

-- The digits of a number below the limit are read back.
digits_from-hex_loop :
    (limit fuel n : ℕ)
    → n < limit
    → n < 16 ^ fuel
    → digits_from 16 limit 0 (hex_loop fuel n) ≡ some n
unfolding digits_from
digits_from-hex_loop limit zero n h k = ap some (omega arith)
digits_from-hex_loop limit (suc fuel) n h k = elim (Bool-cases (ltb n 16)) [
  | inl low ↦
      let z : 0 * 16 + n ≡ n = omega arith in
      rw (low, digits_from, digit_of-hex_digit n (ltb→lt n 16 low), z, lt→ltb n limit h)
  | inr high ↦
      let ih =
        digits_from-hex_loop limit fuel (n / 16) (omega arith)
          (let p = pow-suc 16 fuel in omega arith) in
      let e : n / 16 * 16 + n % 16 ≡ n = omega arith in
      rw (
        high,
        digits_from-concat 16 limit 0 (hex_loop fuel (n / 16)) (hex_digit (n % 16) ∷ []),
        ih,
        digits_from,
        digit_of-hex_digit (n % 16) (omega arith),
        e,
        lt→ltb n limit h,
      )
]

white_prefix-IsPlain : (b : ℕ) (bs : Bytes) → IsPlain b → white_prefix (b ∷ bs) ≡ 0
unfolding white_prefix
white_prefix-IsPlain b [] h = let v = h.visible in let a = h.ascii in ground arith
white_prefix-IsPlain b (c ∷ []) h = let v = h.visible in let a = h.ascii in ground arith
white_prefix-IsPlain b (c ∷ (d ∷ bs)) h = let v = h.visible in let a = h.ascii in ground arith

trim_start-IsPlain : (bs : Bytes) → All IsPlain bs → trim_start bs ≡ bs
unfolding trim_start trim_start_loop
trim_start-IsPlain [] h = refl
trim_start-IsPlain (b ∷ bs) (h, hs) = rw (trim_start, trim_start_loop, white_prefix-IsPlain b bs h)

trim_end-IsPlain : (bs : Bytes) → All IsPlain bs → trim_end bs ≡ bs
unfolding trim_end
trim_end-IsPlain [] h = refl
trim_end-IsPlain (b ∷ bs) (h, hs) = rw (trim_start-IsPlain (b ∷ bs) (h, hs), trim_end-IsPlain bs hs)

trim-IsPlain : (bs : Bytes) → All IsPlain bs → trim bs ≡ bs
unfolding trim
trim-IsPlain bs h = rw (trim_start-IsPlain bs h) (trim_end-IsPlain bs h)

before_first-IsPlain : (bs : Bytes) → All IsPlain bs → split_once b';' bs ≡ (bs, none)
unfolding split_once
before_first-IsPlain [] h = refl
before_first-IsPlain (b ∷ bs) (h, hs) =
    rw (split_once, before_first-IsPlain bs hs, ==-≢ b b';' h.no_semicolon)

from_str_radix-IsPlain :
    (radix limit : ℕ) (bs : Bytes)
    → All IsPlain bs
    → 0 < length bs
    → from_str_radix radix limit bs ≡ digits_from radix limit 0 bs
unfolding from_str_radix
from_str_radix-IsPlain radix limit [] h k = absurd (omega arith)
from_str_radix-IsPlain radix limit (b ∷ []) (h, hs) k = rw (from_str_radix, ==-≢ b b'+' h.no_plus)
from_str_radix-IsPlain radix limit (b ∷ (c ∷ bs)) (h, hs) k =
    rw (from_str_radix, ==-≢ b b'+' h.no_plus)

to_hex-IsPlain : (n : ℕ) → All IsPlain (to_hex n)
unfolding to_hex
to_hex-IsPlain n = hex_loop-IsPlain 16 n

hex_loop-nonempty : (fuel n : ℕ) → 0 < length (hex_loop (suc fuel) n)
hex_loop-nonempty fuel n = elim (Bool-cases (ltb n 16)) [
  | inl low ↦ rw low (omega arith)
  | inr high ↦
      rw high (omega (arith, length-append (hex_loop fuel (n / 16)) (hex_digit (n % 16) ∷ [])))
]

ascii_of : (bs : Bytes) → All IsPlain bs → All (λ b. b < 0x80) bs
ascii_of [] h = tt
ascii_of (b ∷ bs) (h, hs) = let a = h.ascii in (omega arith, ascii_of bs hs)

no_cr_of : (bs : Bytes) → All IsPlain bs → All (λ b. b ≢ 13) bs
no_cr_of [] h = tt
no_cr_of (b ∷ bs) (h, hs) = let v = h.visible in (λ e. omega arith, no_cr_of bs hs)

to_hex-nonempty : (n : ℕ) → 0 < length (to_hex n)
unfolding to_hex
to_hex-nonempty n = hex_loop-nonempty 15 n

digits_from-to_hex : (n : ℕ) → n < 2 ^ 64 → digits_from 16 (2 ^ 64) 0 (to_hex n) ≡ some n
unfolding to_hex
digits_from-to_hex n h = digits_from-hex_loop (2 ^ 64) 16 n h (omega arith)

-- A size written in hexadecimal is read back from its line.
pub from_str_radix-to_hex :
    (n : ℕ) → n < 2 ^ 64 → from_str_radix 16 (2 ^ 64) (trim (before_first b';' (to_hex n))) ≡ some n
from_str_radix-to_hex n h =
    let plain = to_hex-IsPlain n in
    ap (λ (p : Bytes × Option Bytes). from_str_radix 16 (2 ^ 64) (trim (p.0)))
      (before_first-IsPlain (to_hex n) plain)
    ∙ ap (from_str_radix 16 (2 ^ 64)) (trim-IsPlain (to_hex n) plain)
    ∙ (from_str_radix-IsPlain 16 (2 ^ 64) (to_hex n) plain (to_hex-nonempty n)
        ∙ digits_from-to_hex n h)

pub to_hex-ascii : (n : ℕ) → All (λ b. b < 0x80) (to_hex n)
to_hex-ascii n = ascii_of (to_hex n) (to_hex-IsPlain n)

pub to_hex-no_cr : (n : ℕ) → All (λ b. b ≢ 13) (to_hex n)
to_hex-no_cr n = no_cr_of (to_hex n) (to_hex-IsPlain n)
