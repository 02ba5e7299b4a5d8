-- ===== src/Config/Seeds.antt =====
-- Which seed an address has after any calls of the frontend: crates/pcsuite-core/src/config.rs.
use pcsuite_rs.Base.{
  ◌≡◌, refl, sym, ap, ◌∙◌, false, List, [], ◌∷◌, Option, none, some, bytes_eq, bytes_eq_iff,
  Bool-cases, inl, inr, is_empty, if◌then◌else◌,
}
use pcsuite_rs.Base.Wire.{Bytes}
use pcsuite_rs.FileTrans.{or_try}
use pcsuite_rs.Config.{
  Seeds, seed_at, remove_seed, UserConfig, Overrides, set_seed, default_stored_seed, no_overrides,
}

-- The calls `set_seed(ip, seed)`, the last one first.
abbrev pub after_calls : List (Bytes × Bytes) → Overrides
unfolding set_seed
after_calls [] = no_overrides
after_calls ((ip, seed) ∷ calls) = set_seed ip seed (after_calls calls)

-- The seed of the last call for the address, if that call did not clear it.
abbrev pub last_set : List (Bytes × Bytes) → Bytes → Option Bytes
last_set [] ip = none
last_set ((k, seed) ∷ calls) ip =
    let earlier = last_set calls ip in
    if bytes_eq k ip then if is_empty seed then none else some seed else earlier

seed_at-remove_seed : (ip : Bytes) (kvs : Seeds) → seed_at (remove_seed ip kvs) ip ≡ none
seed_at-remove_seed ip [] = refl
seed_at-remove_seed ip ((k, v) ∷ kvs) = elim (Bool-cases (bytes_eq k ip)) [
  | inl same ↦ rw same (seed_at-remove_seed ip kvs)
  | inr other ↦ rw (other, other) (seed_at-remove_seed ip kvs)
]

seed_at-remove_other :
    (k ip : Bytes) (kvs : Seeds)
    → bytes_eq k ip ≡ false
    → seed_at (remove_seed k kvs) ip ≡ seed_at kvs ip
seed_at-remove_other k ip [] h = refl
seed_at-remove_other k ip ((j, v) ∷ kvs) h = elim (Bool-cases (bytes_eq j k)) [
  | inl same ↦
      let j≡k = (bytes_eq_iff j k).0 same in
      let skip : bytes_eq j ip ≡ false = ap (λ x. bytes_eq x ip) j≡k ∙ h in
      rw (same, skip) (seed_at-remove_other k ip kvs h)
  | inr other ↦ elim (Bool-cases (bytes_eq j ip)) [
    | inl here_ ↦ rw (other, here_) refl
    | inr there ↦ rw (other, there) (seed_at-remove_other k ip kvs h)
  ]
]

seed_at-last_set :
    (calls : List (Bytes × Bytes)) (ip : Bytes)
    → seed_at (after_calls calls).seeds ip ≡ last_set calls ip
unfolding set_seed
seed_at-last_set [] ip = refl
seed_at-last_set ((k, seed) ∷ calls) ip =
    let old = (after_calls calls).seeds in
    elim (Bool-cases (bytes_eq k ip)) [
      | inl same ↦
          let k≡ip = (bytes_eq_iff k ip).0 same in
          let gone : seed_at (remove_seed k old) ip ≡ none =
            ap (λ x. seed_at (remove_seed k old) x) (sym k≡ip) ∙ seed_at-remove_seed k old in
          elim (Bool-cases (is_empty seed)) [
            | inl cleared ↦ rw (cleared, same) gone
            | inr set_ ↦ rw (set_, same) refl
          ]
      | inr other ↦
          let kept = seed_at-remove_other k ip old other ∙ seed_at-last_set calls ip in
          elim (Bool-cases (is_empty seed)) [
            | inl cleared ↦ rw (cleared, other) kept
            | inr set_ ↦ rw (set_, other) kept
          ]
    ]

-- After any calls of `set_seed`, an address has the seed of the last call for it; where there was none,
-- or the last one cleared it, it has the configured seed of the address, and else the configured
-- default.
pub default_stored_seed-last_set :
    (c : UserConfig) (calls : List (Bytes × Bytes)) (ip : Bytes)
    → default_stored_seed c (after_calls calls) ip
      ≡ or_try (last_set calls ip) (or_try (seed_at c.seeds ip) c.default_seed)
unfolding default_stored_seed
default_stored_seed-last_set c calls ip =
    ap (λ o. or_try o (or_try (seed_at c.seeds ip) c.default_seed)) (seed_at-last_set calls ip)
