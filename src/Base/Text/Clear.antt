-- ===== src/Base/Text/Clear.antt =====
-- Texts without a certain byte: what `split` gives, and decimal numbers.
use pcsuite_rs.Base.{
  ℕ, zero, suc, ◌+◌, ◌/◌, ◌%◌, ◌≤◌, ◌<◌, ◌≡◌, ◌≢◌, refl, ap, ap₂, List, [], ◌∷◌, ◌++◌, none, some,
  length, ltb, ◌==◌, All, arith, Bool-cases, Option-cases, inl, inr, ==_iff, ==-refl, ==-≢,
  length-append,
}
use pcsuite_rs.Base.Wire.{Bytes}
use pcsuite_rs.Base.Text.{split_once, split_loop, split, decimal_loop, to_decimal}

-- The byte does not occur.
abbrev pub IsClear : ℕ → Bytes → Type 0
IsClear c = All (λ b. b ≢ c)

pub IsClear-append : (c : ℕ) (xs ys : Bytes) → IsClear c xs → IsClear c ys → IsClear c (xs ++ ys)
IsClear-append c [] ys h k = k
IsClear-append c (x ∷ xs) ys (h, hs) k = (h, IsClear-append c xs ys hs k)

split_once-IsClear : (c : ℕ) (bs : Bytes) → IsClear c (split_once c bs).0
unfolding split_once
split_once-IsClear c [] = tt
split_once-IsClear c (b ∷ bs) = elim (Bool-cases (b == c)) [
  | inl same ↦ rw same tt
  | inr other ↦ rw other (λ e. let f = (==_iff b c).1 e in cc, split_once-IsClear c bs)
]

split_once_shorter :
    (c : ℕ) (bs : Bytes) {after : Bytes}
    → (split_once c bs).1 ≡ some after
    → length after < length bs
unfolding split_once
split_once_shorter c [] e = cc
split_once_shorter c (b ∷ bs) {after} e = elim (Bool-cases (b == c)) [
  | inl same ↦
      let f : some bs ≡ some after = rw same at e in
      let g : bs ≡ after = cc in rw (← g) (omega arith)
  | inr other ↦
      let f : (split_once c bs).1 ≡ some after = rw other at e in
      omega (arith, split_once_shorter c bs f)
]

split_once_whole : (c : ℕ) (bs : Bytes) → (split_once c bs).1 ≡ none → IsClear c bs
unfolding split_once
split_once_whole c [] e = tt
split_once_whole c (b ∷ bs) e = elim (Bool-cases (b == c)) [
  | inl same ↦ let f : some bs ≡ none = rw same at e in cc
  | inr other ↦
      let f : (split_once c bs).1 ≡ none = rw other at e in
      (λ k. let g = (==_iff b c).1 k in cc, split_once_whole c bs f)
]

split_loop-IsClear :
    (fuel c : ℕ) (bs : Bytes) → length bs ≤ fuel → All (IsClear c) (split_loop fuel c bs)
unfolding split_loop
split_loop-IsClear zero c [] h = (tt, tt)
split_loop-IsClear zero c (b ∷ bs) h = absurd (omega arith)
split_loop-IsClear (suc fuel) c bs h = elim (Option-cases ((split_once c bs).1)) [
  | inl e ↦ rw (split_loop, e) (split_once_whole c bs e, tt)
  | inr (after, e) ↦
      rw (split_loop, e)
        (
          split_once-IsClear c bs,
          split_loop-IsClear fuel c after (omega (arith, split_once_shorter c bs e, h)),
        )
]

-- No part of a text that was split has the byte.
pub split-IsClear : (c : ℕ) (bs : Bytes) → All (IsClear c) (split c bs)
unfolding split
split-IsClear c bs = split_loop-IsClear (length bs) c bs (omega arith)

decimal_loop-IsClear : (fuel c n : ℕ) → c < 48 → IsClear c (decimal_loop fuel n)
decimal_loop-IsClear zero c n h = tt
decimal_loop-IsClear (suc fuel) c n h = elim (Bool-cases (ltb n 10)) [
  | inl small ↦ rw small (λ e. absurd (omega (arith, e)), tt)
  | inr large ↦ rw large (
      IsClear-append c (decimal_loop fuel (n / 10)) ((48 + n % 10) ∷ [])
        (decimal_loop-IsClear fuel c (n / 10) h) (λ e. absurd (omega (arith, e)), tt))
]

pub to_decimal-IsClear : (c n : ℕ) → c < 48 → IsClear c (to_decimal n)
unfolding to_decimal
to_decimal-IsClear c n h = decimal_loop-IsClear 20 c n h

pub split_once_at :
    (c : ℕ) (xs ys : Bytes) → IsClear c xs → split_once c (xs ++ (c ∷ ys)) ≡ (xs, some ys)
unfolding split_once
split_once_at c [] ys h = rw (split_once, ==-refl c) refl
split_once_at c (x ∷ xs) ys (ne, h) = rw (split_once, ==-≢ x c ne, split_once_at c xs ys h) refl

pub split_once-none : (c : ℕ) (xs : Bytes) → IsClear c xs → split_once c xs ≡ (xs, none)
unfolding split_once
split_once-none c [] h = refl
split_once-none c (x ∷ xs) (ne, h) = rw (split_once, ==-≢ x c ne, split_once-none c xs h) refl

-- The parts with the byte between them.
abbrev pub join : ℕ → Bytes → List Bytes → Bytes
join c x [] = x
join c x (y ∷ ys) = x ++ (c ∷ join c y ys)

split_loop-join :
    (fuel c : ℕ) (x : Bytes) (ys : List Bytes)
    → length ys ≤ fuel
    → IsClear c x
    → All (IsClear c) ys
    → split_loop fuel c (join c x ys) ≡ x ∷ ys
unfolding split_loop
split_loop-join zero c x [] h x_ok ok = refl
split_loop-join zero c x (y ∷ ys) h x_ok ok = absurd (omega arith)
split_loop-join (suc fuel) c x [] h x_ok ok = rw (split_loop, split_once-none c x x_ok) refl
split_loop-join (suc fuel) c x (y ∷ ys) h x_ok (y_ok, ok) =
    let one = split_once_at c x (join c y ys) x_ok in
    rw (split_loop, ap (λ p. p.1) one)
      (ap₂ ◌∷◌ (ap (λ p. p.0) one) (split_loop-join fuel c y ys (omega (arith, h)) y_ok ok))

length-join : (c : ℕ) (x : Bytes) (ys : List Bytes) → length ys ≤ length (join c x ys)
length-join c x [] = omega arith
length-join c x (y ∷ ys) = omega (arith, length-append x (c ∷ join c y ys), length-join c y ys)

-- Parts without the byte are what a split of the joined text gives.
pub split-join :
    (c : ℕ) (x : Bytes) (ys : List Bytes)
    → IsClear c x
    → All (IsClear c) ys
    → split c (join c x ys) ≡ x ∷ ys
unfolding split
split-join c x ys x_ok ok =
    split_loop-join (length (join c x ys)) c x ys (length-join c x ys) x_ok ok
