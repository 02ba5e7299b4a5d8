-- ===== src/Base/Search.antt =====
-- `starts_with` and the first position of a needle.
use pcsuite_rs.Base.{
  ℕ, zero, suc, ◌+◌, ◌<◌, ◌≤◌, ◌≡◌, ◌≢◌, refl, ap, sym, ◌∙◌, true, [], ◌∷◌, ◌++◌, some, length,
  ==-≢, ==-refl, drop, arith, All, Bool-cases, inl, inr,
}
use pcsuite_rs.Base.Wire.{Bytes, starts_with, position_from, position_of}

pub starts_with-append : (xs ys : Bytes) → starts_with (xs ++ ys) xs ≡ true
unfolding starts_with
starts_with-append [] [] = refl
starts_with-append [] (y ∷ ys) = refl
starts_with-append (x ∷ xs) ys = ground (arith, starts_with-append xs ys)

some-injective : {m n : ℕ} → some m ≡ some n → m ≡ n
some-injective {m} {n} e = cc

-- No match lies before the position found.
pub position_from_least :
    (i k m : ℕ) (needle hay : Bytes)
    → position_from i needle hay ≡ some m
    → k < length hay
    → starts_with (drop k hay) needle ≡ true
    → m ≤ i + k
unfolding position_from
position_from_least i k m needle [] e h s = absurd (omega arith)
position_from_least i zero m needle (b ∷ hay) e h s = ground arith
position_from_least i (suc k) m needle (b ∷ hay) e h s =
    elim (Bool-cases (starts_with (b ∷ hay) needle)) [
      | inl here ↦ let at : some i ≡ some m = ground arith in omega (arith, some-injective at)
      | inr past ↦
          let e' : position_from (i + 1) needle hay ≡ some m = ground arith in
          let r = position_from_least (i + 1) k m needle hay e' (omega arith) s in omega (arith, r)
    ]

-- A two-byte needle behind bytes that do not hold its first byte.
pub position_from_pair :
    (i x y : ℕ) (xs rest : Bytes)
    → All (λ c. c ≢ x) xs
    → position_from i (x ∷ y ∷ []) (xs ++ (x ∷ y ∷ rest)) ≡ some (i + length xs)
unfolding position_from starts_with
position_from_pair i x y [] rest h = rw (==-refl x, ==-refl y) (ap some (omega arith))
position_from_pair i x y (c ∷ xs) rest (h, hs) =
    rw (==-≢ c x h) (position_from_pair (i + 1) x y xs rest hs ∙ ap some (omega arith))

pub position_of_pair :
    (x y : ℕ) (xs rest : Bytes)
    → All (λ c. c ≢ x) xs
    → position_of (x ∷ y ∷ []) (xs ++ (x ∷ y ∷ rest)) ≡ some (length xs)
unfolding position_of
position_of_pair x y xs rest h = position_from_pair 0 x y xs rest h ∙ ap some (omega arith)

starts_with-length :
    (hay needle : Bytes) → starts_with hay needle ≡ true → length needle ≤ length hay
unfolding starts_with
starts_with-length hay [] h = omega arith
starts_with-length [] (n ∷ ns) h = cc
starts_with-length (b ∷ hay) (n ∷ ns) h =
    let r = starts_with-length hay ns (ground arith) in omega (arith, r)

starts_with_longer :
    (hay later needle : Bytes)
    → length needle ≤ length hay
    → starts_with (hay ++ later) needle ≡ starts_with hay needle
unfolding starts_with
starts_with_longer [] [] [] h = refl
starts_with_longer [] (l ∷ later) [] h = refl
starts_with_longer (b ∷ hay) later [] h = refl
starts_with_longer [] later (n ∷ ns) h = absurd (omega arith)
starts_with_longer (b ∷ hay) later (n ∷ ns) h = rw (starts_with_longer hay later ns (omega arith))

-- The needle lies within the bytes in which it was found.
pub position_from_bound :
    (i m : ℕ) (needle hay : Bytes)
    → position_from i needle hay ≡ some m
    → m + length needle ≤ i + length hay
unfolding position_from
position_from_bound i m needle [] e = cc
position_from_bound i m needle (b ∷ hay) e = elim (Bool-cases (starts_with (b ∷ hay) needle)) [
  | inl here ↦
      let at : some i ≡ some m = ground arith in
      omega (arith, some-injective at, starts_with-length (b ∷ hay) needle here)
  | inr past ↦
      let e' : position_from (i + 1) needle hay ≡ some m = ground arith in
      omega (arith, position_from_bound (i + 1) m needle hay e')
]

position_from_start : (i m : ℕ) (needle hay : Bytes) → position_from i needle hay ≡ some m → i ≤ m
unfolding position_from
position_from_start i m needle [] e = cc
position_from_start i m needle (b ∷ hay) e = elim (Bool-cases (starts_with (b ∷ hay) needle)) [
  | inl here ↦ let at : some i ≡ some m = ground arith in omega (arith, some-injective at)
  | inr past ↦
      let e' : position_from (i + 1) needle hay ≡ some m = ground arith in
      omega (arith, position_from_start (i + 1) m needle hay e')
]

-- A needle that was found stands at the same place once more bytes are there.
pub position_from_longer :
    (i m : ℕ) (needle hay later : Bytes)
    → position_from i needle hay ≡ some m
    → position_from i needle (hay ++ later) ≡ some m
unfolding position_from
position_from_longer i m needle [] later e = cc
position_from_longer i m needle (b ∷ hay) later e =
    elim (Bool-cases (starts_with (b ∷ hay) needle)) [
      | inl here ↦
          let same =
            starts_with_longer (b ∷ hay) later needle (starts_with-length (b ∷ hay) needle here) in
          let at : some i ≡ some m = ground arith in rw (same, here) at
      | inr past ↦
          let e' : position_from (i + 1) needle hay ≡ some m = ground arith in
          let bound = position_from_bound (i + 1) m needle hay e' in
          let after = position_from_start (i + 1) m needle hay e' in
          let same = starts_with_longer (b ∷ hay) later needle (omega (arith, bound, after)) in
          rw (same, past) (position_from_longer (i + 1) m needle hay later e')
    ]

-- What is known of a pair found in the bytes that have arrived of `xs ++ (x ∷ y ∷ rest)`.
pub position_of_pair-arrived :
    (x y m : ℕ) (hay later xs rest : Bytes)
    → hay ++ later ≡ xs ++ (x ∷ y ∷ rest)
    → All (λ c. c ≢ x) xs
    → position_of (x ∷ y ∷ []) hay ≡ some m
    → (m ≡ length xs) × (length xs + 2 ≤ length hay)
unfolding position_of
position_of_pair-arrived x y m hay later xs rest e h found =
    let there = position_from_longer 0 m (x ∷ y ∷ []) hay later found in
    let known : some m ≡ some (length xs) =
      sym there ∙ ap (position_of (x ∷ y ∷ [])) e ∙ position_of_pair x y xs rest h in
    let at = some-injective known in
    (at, omega (arith, at, position_from_bound 0 m (x ∷ y ∷ []) hay found))
