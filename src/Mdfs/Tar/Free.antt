-- ===== src/Mdfs/Tar/Free.antt =====
-- crates/pcsuite-core/src/mdfs.rs: `unique_path` finds a free path.
use pcsuite_rs.Base.{
  ℕ, zero, suc, ◌+◌, ◌%◌, ◌^◌, ◌<◌, ◌≤◌, ◌≡◌, ◌≢◌, refl, ap, sym, ◌∙◌, true, false, List, [], ◌∷◌,
  ◌++◌, length, if◌then◌else◌, bytes_eq, bytes_eq_iff, take, arith, Bool-cases, lt→ltb, Option,
  some, inl, inr, length-append, take-append,
}
use pcsuite_rs.Base.Wire.{Bytes, codes}
use pcsuite_rs.Base.Text.{to_decimal}
use pcsuite_rs.Base.Text.Decimal.{to_decimal_injective}
use pcsuite_rs.Mdfs.Tar.Extract.{
  join, is_path, stem_ext, i32_text, numbered, first_free, unique_path,
}

append_cancel_left : (xs ys zs : Bytes) → xs ++ ys ≡ xs ++ zs → ys ≡ zs
append_cancel_left [] ys zs e = e
append_cancel_left (x ∷ xs) ys zs e = append_cancel_left xs ys zs (tail_of e)
  where
    rest : Bytes → Bytes
    rest [] = []
    rest (b ∷ bs) = bs

    tail_of : (x ∷ (xs ++ ys)) ≡ (x ∷ (xs ++ zs)) → xs ++ ys ≡ xs ++ zs
    tail_of e = ap rest e

append_cancel_right : (xs ys zs : Bytes) → xs ++ zs ≡ ys ++ zs → xs ≡ ys
append_cancel_right xs ys zs e =
    let n : length xs ≡ length ys =
      omega (arith, ap length e, length-append xs zs, length-append ys zs) in
    sym (take-append (length xs) xs zs refl)
    ∙ ap (take (length xs)) e
    ∙ take-append (length xs) ys zs (sym n)

numbered_injective :
    (dir name : Bytes) (m n : ℕ)
    → m < 2 ^ 31
    → n < 2 ^ 31
    → numbered dir name m ≡ numbered dir name n
    → m ≡ n
unfolding numbered
numbered_injective dir name m n hm hn e =
    let stem = (stem_ext name).0 in
    let ext = (stem_ext name).1 in
    let text = λ (k : ℕ). i32_text k ++ (codes ")" ++ ext) in
    let inner = append_cancel_left (b'/' ∷ []) _ _ (append_cancel_left dir _ _ e) in
    let marked =
      append_cancel_left (codes " (") (text m) (text n) (append_cancel_left stem _ _ inner) in
    to_decimal_injective m n (omega (arith, hm)) (omega (arith, hn)) (
      small m hm
      ∙ append_cancel_right (i32_text m) (i32_text n) (codes ")" ++ ext) marked
      ∙ sym (small n hn))
  where
    small : (k : ℕ) → k < 2 ^ 31 → to_decimal k ≡ i32_text k
    small k h = rw (lt→ltb k (2 ^ 31) h) refl

-- The paths but for those equal to `p`.
without : Bytes → List Bytes → List Bytes
without p [] = []
without p (q ∷ qs) = let rest = without p qs in if bytes_eq q p then rest else q ∷ rest

length-without : (p : Bytes) (qs : List Bytes) → length (without p qs) ≤ length qs
unfolding without
length-without p [] = omega arith
length-without p (q ∷ qs) = ground (arith, length-without p qs)

without_shorter :
    (p : Bytes) (qs : List Bytes) → is_path qs p ≡ true → length (without p qs) < length qs
unfolding without
without_shorter p [] h = cc
without_shorter p (q ∷ qs) h = elim (Bool-cases (bytes_eq q p)) [
  | inl same ↦ rw (without, same) (omega (arith, length-without p qs))
  | inr other ↦
      let r = without_shorter p qs (ground arith) in rw (without, other) (omega (arith, r))
]

is_path-without :
    (p r : Bytes) (qs : List Bytes) → r ≢ p → is_path qs r ≡ true → is_path (without p qs) r ≡ true
unfolding without
is_path-without p r [] h k = k
is_path-without p r (q ∷ qs) h k = elim (Bool-cases (bytes_eq q p)) [
  | inl same ↦ elim (Bool-cases (bytes_eq q r)) [
    | inl found ↦ absurd (h (sym ((bytes_eq_iff q r).0 found) ∙ (bytes_eq_iff q p).0 same))
    | inr past ↦ rw (without, same) (is_path-without p r qs h (ground arith))
  ]
  | inr other ↦ elim (Bool-cases (bytes_eq q r)) [
    | inl found ↦ rw (without, other, found)
    | inr past ↦ rw (without, other, past) (is_path-without p r qs h (ground arith))
  ]
]

-- The path is one that does not exist.
record IsFree (existing : List Bytes) (found : Option Bytes) : Type 0 where
  path : Bytes
  found_it : found ≡ some path
  free : is_path existing path ≡ false

-- While the candidates from `n` on that exist are among `qs`, one round more than `qs` has paths is enough.
first_free-IsFree :
    (fuel : ℕ) (qs existing : List Bytes) (dir name : Bytes) (n : ℕ)
    → ((m : ℕ)
        → n ≤ m
        → m < n + fuel
        → is_path existing (numbered dir name m) ≡ true
        → is_path qs (numbered dir name m) ≡ true)
    → length qs < fuel
    → n + fuel < 2 ^ 31
    → IsFree existing (first_free fuel existing dir name n)
unfolding first_free
first_free-IsFree zero qs existing dir name n among f bound = absurd (omega arith)
first_free-IsFree (suc fuel) qs existing dir name n among f bound =
    elim (Bool-cases (is_path existing (numbered dir name n))) [
      | inr free ↦
          rw (first_free, free)
            (record { path = numbered dir name n; found_it = refl; free = free })
      | inl taken ↦
          let p = numbered dir name n in
          let fewer = without_shorter p qs (among n (omega arith) (omega arith) taken) in
          let next : (n + 1) % 2 ^ 32 ≡ n + 1 = omega arith in
          rw (first_free, taken, next)
            (first_free-IsFree fuel (without p qs) existing dir name (n + 1)
              (λ m lo hi there.
                is_path-without p (numbered dir name m) qs
                  (λ e.
                    let same = numbered_injective dir name m n (omega arith) (omega arith) e in
                    omega arith)
                  (among m (omega arith) (omega arith) there))
              (omega (arith, fewer)) (omega arith))
    ]

-- While fewer than 2^31 - 2 paths exist, the search of `unique_path` ends, and the path that it gives does
-- not exist, so nothing is overwritten.
pub unique_path-is_path :
    (existing : List Bytes) (dir name : Bytes)
    → length existing + 2 < 2 ^ 31
    → (p : Bytes) × (unique_path existing dir name ≡ some p) × (is_path existing p ≡ false)
unfolding unique_path
unique_path-is_path existing dir name h = elim (Bool-cases (is_path existing (join dir name))) [
  | inr free ↦ (join dir name, rw (unique_path, free) refl, free)
  | inl taken ↦
      let r =
        first_free-IsFree (suc (length existing)) existing existing dir name 1
          (λ m lo hi there. there) (omega arith) (omega arith) in
      (r.path, rw (unique_path, taken) r.found_it, r.free)
]
