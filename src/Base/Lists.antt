-- ===== src/Base/Lists.antt =====
-- Lists measured and sliced by native numbers. `slice i j xs` is Rust's `xs[i..j]` where that is in
-- range, and `get_range? i j xs` is `xs.get(i..j)`.
use Prim.Native.Nat.{ℕ, zero, suc, ◌+◌, ◌-◌, ◌≤◌, ◌<◌, min}
use mathlib.Core.Path.{◌∙◌, ◌≡◌, refl, ap, sym}
use mathlib.Core.Bool.{Bool, true, false, ◌&&◌}
use mathlib.Core.List.{List, [], ◌∷◌, ◌++◌}
use mathlib.Core.Option.{Option, none, some}
use native.Mathlib.Omega.{arith}
use pcsuite_rs.Base.Tests.{leb, if◌then◌else◌, le→leb}

module _ {ℓ} {A : Type ℓ} where
  abbrev pub length : List A → ℕ
  length [] = 0
  length (x ∷ xs) = suc (length xs)

  abbrev pub take : ℕ → List A → List A
  take zero xs = []
  take (suc n) [] = []
  take (suc n) (x ∷ xs) = x ∷ take n xs

  abbrev pub drop : ℕ → List A → List A
  drop zero xs = xs
  drop (suc n) [] = []
  drop (suc n) (x ∷ xs) = drop n xs

  abbrev pub get_elem? : List A → ℕ → Option A
  get_elem? [] i = none
  get_elem? (x ∷ xs) zero = some x
  get_elem? (x ∷ xs) (suc i) = get_elem? xs i

  abbrev pub get_or : List A → ℕ → A → A
  get_or [] i d = d
  get_or (x ∷ xs) zero d = x
  get_or (x ∷ xs) (suc i) d = get_or xs i d

  abbrev pub replicate : ℕ → A → List A
  replicate zero a = []
  replicate (suc n) a = a ∷ replicate n a

  abbrev pub slice : ℕ → ℕ → List A → List A
  slice i j xs = take (j - i) (drop i xs)

  abbrev pub is_empty : List A → Bool
  is_empty [] = true
  is_empty (x ∷ xs) = false

  abbrev pub All {κ} : (A → Type κ) → List A → Type κ
  All P [] = Unit {κ}
  All P (x ∷ xs) = P x × All P xs

module _ {ℓ} {A : Type ℓ} where
  abbrev pub get_range? : ℕ → ℕ → List A → Option (List A)
  get_range? i j xs = if leb i j && leb j (length xs) then some (slice i j xs) else none

  -- `xs.get(i..)`
  abbrev pub get_from? : ℕ → List A → Option (List A)
  get_from? i xs = if leb i (length xs) then some (drop i xs) else none

  pub length-append : (xs ys : List A) → length (xs ++ ys) ≡ length xs + length ys
  length-append [] ys = omega arith
  length-append (x ∷ xs) ys = omega (arith, length-append xs ys)

  pub length-take : (n : ℕ) (xs : List A) → length (take n xs) ≡ min n (length xs)
  length-take zero xs = omega arith
  length-take (suc n) [] = omega arith
  length-take (suc n) (x ∷ xs) = omega (arith, length-take n xs)

  pub length-drop : (n : ℕ) (xs : List A) → length (drop n xs) ≡ length xs - n
  length-drop zero xs = omega arith
  length-drop (suc n) [] = omega arith
  length-drop (suc n) (x ∷ xs) = omega (arith, length-drop n xs)

  pub length-replicate : (n : ℕ) (a : A) → length (replicate n a) ≡ n
  length-replicate zero a = refl
  length-replicate (suc n) a = ap suc (length-replicate n a)

  pub take-append-drop : (n : ℕ) (xs : List A) → take n xs ++ drop n xs ≡ xs
  take-append-drop zero xs = refl
  take-append-drop (suc n) [] = refl
  take-append-drop (suc n) (x ∷ xs) = rw (take-append-drop n xs)

  pub take_all : (n : ℕ) (xs : List A) → length xs ≤ n → take n xs ≡ xs
  take_all zero [] h = refl
  take_all (suc n) [] h = refl
  take_all zero (x ∷ xs) h = absurd (omega arith)
  take_all (suc n) (x ∷ xs) h = rw (take_all n xs (omega arith))

  pub take-append : (n : ℕ) (xs ys : List A) → length xs ≡ n → take n (xs ++ ys) ≡ xs
  take-append zero [] ys h = refl
  take-append (suc n) [] ys h = absurd (omega arith)
  take-append zero (x ∷ xs) ys h = absurd (omega arith)
  take-append (suc n) (x ∷ xs) ys h = rw (take-append n xs ys (omega arith))

  pub drop-append : (n : ℕ) (xs ys : List A) → length xs ≡ n → drop n (xs ++ ys) ≡ ys
  drop-append zero [] ys h = refl
  drop-append (suc n) [] ys h = absurd (omega arith)
  drop-append zero (x ∷ xs) ys h = absurd (omega arith)
  drop-append (suc n) (x ∷ xs) ys h = drop-append n xs ys (omega arith)

  -- Skipping a known prefix of length `k`.
  pub drop-append_add :
      (k i : ℕ) (xs ys : List A) → length xs ≡ k → drop (k + i) (xs ++ ys) ≡ drop i ys
  drop-append_add k i [] ys h = let e : k + i ≡ i = omega arith in rw e
  drop-append_add zero i (x ∷ xs) ys h = absurd (omega arith)
  drop-append_add (suc k) i (x ∷ xs) ys h =
      let e : suc k + i ≡ suc (k + i) = omega arith in
      rw e (drop-append_add k i xs ys (omega arith))

  pub take-append_add :
      (k i : ℕ) (xs ys : List A) → length xs ≡ k → take (k + i) (xs ++ ys) ≡ xs ++ take i ys
  take-append_add k i [] ys h = let e : k + i ≡ i = omega arith in rw e
  take-append_add zero i (x ∷ xs) ys h = absurd (omega arith)
  take-append_add (suc k) i (x ∷ xs) ys h =
      let e : suc k + i ≡ suc (k + i) = omega arith in
      rw (e, take-append_add k i xs ys (omega arith))

  pub slice_skip :
      (k i j : ℕ) (xs ys : List A) → length xs ≡ k → slice (k + i) (k + j) (xs ++ ys) ≡ slice i j ys
  slice_skip k i j xs ys h =
      let e : k + j - (k + i) ≡ j - i = omega arith in rw (e, drop-append_add k i xs ys h)

  pub slice_here : (k : ℕ) (xs ys : List A) → length xs ≡ k → slice 0 k (xs ++ ys) ≡ xs
  slice_here k xs ys h = let e : k - 0 ≡ k = omega arith in rw e (take-append k xs ys h)

  pub get_or_skip :
      (k i : ℕ) (xs ys : List A) (d : A)
      → length xs ≡ k
      → get_or (xs ++ ys) (k + i) d ≡ get_or ys i d
  get_or_skip k i [] ys d h = let e : k + i ≡ i = omega arith in rw e
  get_or_skip zero i (x ∷ xs) ys d h = absurd (omega arith)
  get_or_skip (suc k) i (x ∷ xs) ys d h =
      let e : suc k + i ≡ suc (k + i) = omega arith in rw e (get_or_skip k i xs ys d (omega arith))

  pub get_range?-some :
      (i j : ℕ) (xs : List A) → i ≤ j → j ≤ length xs → get_range? i j xs ≡ some (slice i j xs)
  get_range?-some i j xs h k = rw (le→leb i j h, le→leb j (length xs) k)

  pub drop-drop : (i j : ℕ) (xs : List A) → drop j (drop i xs) ≡ drop (i + j) xs
  drop-drop zero j xs = let e : 0 + j ≡ j = omega arith in rw e
  drop-drop (suc i) zero [] = let e : suc i + 0 ≡ suc i = omega arith in rw e
  drop-drop (suc i) (suc j) [] = let e : suc i + suc j ≡ suc (i + suc j) = omega arith in rw e
  drop-drop (suc i) j (x ∷ xs) =
      let e : suc i + j ≡ suc (i + j) = omega arith in rw e (drop-drop i j xs)

  pub take-append_le : (n : ℕ) (xs ys : List A) → n ≤ length xs → take n (xs ++ ys) ≡ take n xs
  take-append_le zero xs ys h = refl
  take-append_le (suc n) [] ys h = absurd (omega arith)
  take-append_le (suc n) (x ∷ xs) ys h = rw (take-append_le n xs ys (omega arith))

  pub drop-append_le :
      (n : ℕ) (xs ys : List A) → n ≤ length xs → drop n (xs ++ ys) ≡ drop n xs ++ ys
  drop-append_le zero xs ys h = refl
  drop-append_le (suc n) [] ys h = absurd (omega arith)
  drop-append_le (suc n) (x ∷ xs) ys h = drop-append_le n xs ys (omega arith)

  -- A list from position `i` on, cut after `k` elements.
  pub drop_cut : (i k : ℕ) (xs : List A) → drop i xs ≡ slice i (i + k) xs ++ drop (i + k) xs
  drop_cut i k xs =
      let e : i + k - i ≡ k = omega arith in
      rw (e, ← drop-drop i k xs) (sym (take-append-drop k (drop i xs)))

  pub drop_cons :
      (i : ℕ) (xs : List A) (d : A) → i < length xs → drop i xs ≡ get_or xs i d ∷ drop (suc i) xs
  drop_cons i [] d h = absurd (omega arith)
  drop_cons zero (x ∷ xs) d h = refl
  drop_cons (suc i) (x ∷ xs) d h = drop_cons i xs d (omega arith)

  pub drop_all : (n : ℕ) (xs : List A) → length xs ≤ n → drop n xs ≡ []
  drop_all zero [] h = refl
  drop_all (suc n) [] h = refl
  drop_all zero (x ∷ xs) h = absurd (omega arith)
  drop_all (suc n) (x ∷ xs) h = drop_all n xs (omega arith)

  pub take_add : (i k : ℕ) (xs : List A) → take (i + k) xs ≡ take i xs ++ take k (drop i xs)
  take_add zero k xs = let e : 0 + k ≡ k = omega arith in rw e
  take_add (suc i) zero [] = let e : suc i + 0 ≡ suc i = omega arith in rw e
  take_add (suc i) (suc k) [] = let e : suc i + suc k ≡ suc (i + suc k) = omega arith in rw e
  take_add (suc i) k (x ∷ xs) =
      let e : suc i + k ≡ suc (i + k) = omega arith in rw (e, take_add i k xs)

-- `xs[off..off + ys.len()].copy_from_slice(ys)`, in range.
module _ {ℓ} {A : Type ℓ} where
  abbrev pub splice : ℕ → List A → List A → List A
  splice off ys xs = take off xs ++ (ys ++ drop (off + length ys) xs)

  pub length-splice :
      (off : ℕ) (ys xs : List A)
      → off + length ys ≤ length xs
      → length (splice off ys xs) ≡ length xs
  length-splice off ys xs h = omega (
    arith,
    length-append (take off xs) (ys ++ drop (off + length ys) xs),
    length-append ys (drop (off + length ys) xs),
    length-take off xs,
    length-drop (off + length ys) xs,
  )

  -- What was written is read back.
  pub slice-splice :
      (off k : ℕ) (ys xs : List A)
      → length ys ≡ k
      → off ≤ length xs
      → slice off (off + k) (splice off ys xs) ≡ ys
  slice-splice off k ys xs e h =
      let n : off + k - off ≡ length ys = omega (arith, e) in
      rw (n, drop-append off (take off xs) _ (omega (arith, length-take off xs)))
        (take-append (length ys) ys _ refl)

  pub take-take : (i j : ℕ) (xs : List A) → i ≤ j → take i (take j xs) ≡ take i xs
  take-take zero j xs h = refl
  take-take (suc i) zero xs h = absurd (omega arith)
  take-take (suc i) (suc j) [] h = refl
  take-take (suc i) (suc j) (x ∷ xs) h = rw (take-take i j xs (omega arith))

  take-nil : (k : ℕ) → take {A = A} k [] ≡ []
  take-nil zero = refl
  take-nil (suc k) = refl

  drop-take : (i j : ℕ) (xs : List A) → drop i (take j xs) ≡ take (j - i) (drop i xs)
  drop-take zero j xs = let e : j - 0 ≡ j = omega arith in rw e
  drop-take (suc i) zero [] = sym (take-nil (0 - suc i))
  drop-take (suc i) (suc j) [] = sym (take-nil (suc j - suc i))
  drop-take (suc i) zero (x ∷ xs) = let e : 0 - suc i ≡ 0 = omega arith in rw e
  drop-take (suc i) (suc j) (x ∷ xs) =
      let e : suc j - suc i ≡ j - i = omega arith in rw (e, drop-take i j xs)

  -- A read before the written range sees the old bytes.
  pub slice-splice_before :
      (i j off : ℕ) (ys xs : List A)
      → i ≤ j
      → j ≤ off
      → off ≤ length xs
      → slice i j (splice off ys xs) ≡ slice i j xs
  slice-splice_before i j off ys xs h k l =
      let len = length-take off xs in
      rw
        (
          drop-append_le i (take off xs) (ys ++ drop (off + length ys) xs) (omega (arith, len)),
          drop-take i off xs,
          take-append_le (j - i) (take (off - i) (drop i xs)) (ys ++ drop (off + length ys) xs)
              (omega (arith, length-take (off - i) (drop i xs), length-drop i xs)),
        )
        (take-take (j - i) (off - i) (drop i xs) (omega arith))

  -- A read behind the written range sees the old bytes.
  pub slice-splice_after :
      (i j off : ℕ) (ys xs : List A)
      → off + length ys ≤ i
      → off + length ys ≤ length xs
      → slice i j (splice off ys xs) ≡ slice i j xs
  slice-splice_after i j off ys xs h k =
      let a : i ≡ off + (length ys + (i - off - length ys)) = omega arith in
      let b : off + length ys + (i - off - length ys) ≡ i = omega arith in
      let moved : drop i (splice off ys xs) ≡ drop i xs =
        ap (λ t. drop t (splice off ys xs)) a
        ∙ drop-append_add off (length ys + (i - off - length ys)) (take off xs) _
            (omega (arith, length-take off xs))
        ∙ drop-append_add (length ys) (i - off - length ys) ys _ refl
        ∙ drop-drop (off + length ys) (i - off - length ys) xs
        ∙ ap (λ t. drop t xs) b in
      ap (take (j - i)) moved

  pub get_or-drop : (i : ℕ) (xs : List A) (d : A) → get_or xs i d ≡ get_or (drop i xs) 0 d
  get_or-drop zero xs d = refl
  get_or-drop (suc i) [] d = refl
  get_or-drop (suc i) (x ∷ xs) d = get_or-drop i xs d
