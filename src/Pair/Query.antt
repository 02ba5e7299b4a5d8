-- ===== src/Pair/Query.antt =====
-- What the phone reports is read back from its query: crates/pcsuite-core/src/pair.rs.
use pcsuite_rs.Base.{
  Option, none, some, sym, Bool, ℕ, ◌<◌, ◌/◌, ◌%◌, ◌≡◌, ◌≢◌, refl, ap, ◌∙◌, true, false, List, [],
  ◌∷◌, ◌++◌, bytes_eq, bytes_eq_iff, if◌then◌else◌, Bool-cases, inl, inr, All, arith, is_empty, map,
}
use pcsuite_rs.Base.Wire.{Bytes}
use pcsuite_rs.Base.Utf8.{is_utf8}
use pcsuite_rs.Base.Text.{split}
use pcsuite_rs.Base.Text.Clear.{IsClear, IsClear-append, split_once_at, join, split-join}
use pcsuite_rs.Pair.{
  is_unreserved, upper_digit, pct, pair_of, pairs_of, parse_query, Params, param, insert_param,
  collect_from,
}
use pcsuite_rs.FileTrans.{or_try}
use pcsuite_rs.Pair.Encoding.{pct_decode-pct}

-- A key with neither of the two separators, and a value that is a text.
pub record IsParam (kv : Bytes × Bytes) : Type 0 where
  pub no_amp : IsClear b'&' kv.0
  pub no_equals : IsClear b'=' kv.0
  pub bytes : All (λ c. c < 256) kv.1
  pub text : is_utf8 kv.1 ≡ true

abbrev pub print_pair : Bytes × Bytes → Bytes
print_pair (k, v) = k ++ (b'=' ∷ pct v)

-- `k=v&k=v`
abbrev pub print_query : Bytes × Bytes → List (Bytes × Bytes) → Bytes
print_query kv kvs = join b'&' (print_pair kv) (map print_pair kvs)

digit_clear : (d : ℕ) → d < 16 → upper_digit d ≢ b'&'
digit_clear d h e = absurd (ground (arith, h, e))

pct-IsClear : (s : Bytes) → All (λ c. c < 256) s → IsClear b'&' (pct s)
unfolding pct
pct-IsClear [] ok = tt
pct-IsClear (c ∷ s) (h, ok) = elim (Bool-cases (is_unreserved c)) [
  | inl u ↦ rw (pct, u) (λ e. absurd (ground (arith, u, e)), pct-IsClear s ok)
  | inr r ↦
      rw (pct, r)
        (
          λ e. absurd (omega (arith, e)),
          (
            digit_clear (c / 16) (omega (arith, h)),
            (digit_clear (c % 16) (omega arith), pct-IsClear s ok),
          ),
        )
]

print_pair-IsClear : (kv : Bytes × Bytes) → IsParam kv → IsClear b'&' (print_pair kv)
print_pair-IsClear (k, v) p =
    IsClear-append b'&' k (b'=' ∷ pct v) p.no_amp
      (λ e. absurd (omega (arith, e)), pct-IsClear v p.bytes)

pairs-IsClear :
    (kvs : List (Bytes × Bytes)) → All IsParam kvs → All (IsClear b'&') (map print_pair kvs)
pairs-IsClear [] ok = tt
pairs-IsClear (kv ∷ kvs) (p, ok) = (print_pair-IsClear kv p, pairs-IsClear kvs ok)

print_pair_nonempty : (k v : Bytes) → is_empty (print_pair (k, v)) ≡ false
print_pair_nonempty [] v = refl
print_pair_nonempty (b ∷ k) v = refl

pair_of-print_pair : (kv : Bytes × Bytes) → IsParam kv → pair_of (print_pair kv) ≡ kv
pair_of-print_pair (k, v) p =
    rw (split_once_at b'=' k (pct v) p.no_equals, pct_decode-pct v p.bytes p.text) refl

pairs_of-print_pair :
    (kvs : List (Bytes × Bytes)) → All IsParam kvs → pairs_of (map print_pair kvs) ≡ kvs
pairs_of-print_pair [] ok = refl
pairs_of-print_pair ((k, v) ∷ kvs) (p, ok) =
    rw (print_pair_nonempty k v, pair_of-print_pair (k, v) p, pairs_of-print_pair kvs ok) refl

-- The value of the last pair with the key.
abbrev pub last_value : Bytes → List (Bytes × Bytes) → Option Bytes
last_value k [] = none
last_value k ((k', v) ∷ kvs) = or_try (last_value k kvs) (if bytes_eq k' k then some v else none)

param-insert_param :
    (k k' v : Bytes) (ps : Params)
    → param k (insert_param k' v ps) ≡ (if bytes_eq k' k then some v else param k ps)
param-insert_param k k' v [] = refl
param-insert_param k k' v ((j, u) ∷ ps) = elim (Bool-cases (bytes_eq j k')) [
  | inl same ↦ elim (Bool-cases (bytes_eq k' k)) [
    | inl hit ↦ rw (same, hit) refl
    | inr miss ↦
        let j≡k' = (bytes_eq_iff j k').0 same in
        let past : bytes_eq j k ≡ false = ap (λ x. bytes_eq x k) j≡k' ∙ miss in
        rw (same, miss, past) refl
  ]
  | inr other ↦ elim (Bool-cases (bytes_eq j k)) [
    | inl here_ ↦
        let j≡k = (bytes_eq_iff j k).0 here_ in
        let no_hit : bytes_eq k' k ≡ false = differs k' j k j≡k other in
        rw (other, here_, no_hit) refl
    | inr past ↦ rw (other, past) (param-insert_param k k' v ps)
  ]
]
  where
    differs : (x y z : Bytes) → y ≡ z → bytes_eq y x ≡ false → bytes_eq x z ≡ false
    differs x y z e h = elim (Bool-cases (bytes_eq x z)) [
      | inr no_ ↦ no_
      | inl same ↦
          let yx : y ≡ x = e ∙ sym ((bytes_eq_iff x z).0 same) in
          let hit : bytes_eq y x ≡ true = (bytes_eq_iff y x).1 yx in absurd (cc)
    ]

regroup :
    (later : Option Bytes) (hit : Bool) (v : Bytes) (before : Option Bytes)
    → or_try later (if hit then some v else before)
      ≡ or_try (or_try later (if hit then some v else none)) before
regroup (some u) hit v before = refl
regroup none true v before = refl
regroup none false v before = refl

-- After the pairs have been collected, a key has the last of their values, and else the one before.
param-collect_from :
    (k : Bytes) (ps : Params) (kvs : List (Bytes × Bytes))
    → param k (collect_from ps kvs) ≡ or_try (last_value k kvs) (param k ps)
param-collect_from k ps [] = refl
param-collect_from k ps ((k', v) ∷ kvs) =
    param-collect_from k (insert_param k' v ps) kvs
    ∙ ap (or_try (last_value k kvs)) (param-insert_param k k' v ps)
    ∙ regroup (last_value k kvs) (bytes_eq k' k) v (param k ps)

or_try-none : (o : Option Bytes) → or_try o none ≡ o
or_try-none none = refl
or_try-none (some v) = refl

-- In the map of a query of any pairs, whose values are percent-encoded texts and whose keys have neither
-- & nor =, each key has the value of the last pair with that key, and a key of no pair has none.
pub param-parse_query :
    (k : Bytes) (kv : Bytes × Bytes) (kvs : List (Bytes × Bytes))
    → IsParam kv
    → All IsParam kvs
    → param k (parse_query (print_query kv kvs)) ≡ last_value k (kv ∷ kvs)
unfolding parse_query
param-parse_query k kv kvs p ok =
    let pairs : pairs_of (split b'&' (print_query kv kvs)) ≡ kv ∷ kvs =
      ap pairs_of (
        split-join b'&' (print_pair kv) (map print_pair kvs) (print_pair-IsClear kv p)
          (pairs-IsClear kvs ok))
      ∙ pairs_of-print_pair (kv ∷ kvs) (p, ok) in
    ap (λ l. param k (collect_from [] l)) pairs
    ∙ param-collect_from k [] (kv ∷ kvs)
    ∙ or_try-none (last_value k (kv ∷ kvs))
