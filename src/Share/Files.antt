-- ===== src/Share/Files.antt =====
-- crates/pcsuite-core/src/share.rs: `dedup_path` and `extract_zip`. The archive's entries are a list,
-- and the paths that exist are too.
use pcsuite_rs.Base.{
  ℕ, zero, suc, ◌+◌, ◌<◌, ◌≤◌, ◌≡◌, ◌⊎◌, Bool, true, false, List, [], ◌∷◌, ◌++◌, Option, none, some,
  Bool-cases, inl, inr, arith, if◌then◌else◌, is_empty, ◌==◌, ap, ◌∙◌, ==_iff,
}
use pcsuite_rs.Base.Wire.{Bytes, codes}
use pcsuite_rs.Base.Maybe.{or_else}
use pcsuite_rs.Base.Text.{to_decimal}
use pcsuite_rs.Base.Result.{Result, done, bail}
use pcsuite_rs.FileTrans.Receiver.{file_name_of}
use pcsuite_rs.Mdfs.Tar.Extract.{join, is_path, numbered}
use pcsuite_rs.Share.{safe_basename}

-- The numbers from `n` on, `fuel` of them, and then the name itself.
unfoldable pub try_numbers : ℕ → List Bytes → Bytes → Bytes → ℕ → Bytes
try_numbers zero existing dir name n = join dir name
try_numbers (suc fuel) existing dir name n =
    let next = try_numbers fuel existing dir name (n + 1) in
    if is_path existing (numbered dir name n) then next else numbered dir name n

unfoldable pub dedup_path : List Bytes → Bytes → Bytes → Bytes
dedup_path existing dir name =
    if is_path existing (join dir name) then try_numbers 999 existing dir name 1 else join dir name

-- `content` is nothing if the entry could not be read, `name` if it could not be opened.
pub record ZipEntry : Type 0 where
  pub is_dir : Bool
  pub name : Option Bytes
  pub content : Option Bytes

-- The files written, and the names that are reported.
abbrev pub Extracted : Type 0
Extracted = List (Bytes × Bytes) × Result (List Bytes)

abbrev wrote : Bytes × Bytes → Extracted → Extracted
wrote w (ws, r) = (w ∷ ws, r)

module _ (can_create : Bytes → Bool) (dir : Bytes) where
  unfoldable pub extract_loop : ℕ → List ZipEntry → List Bytes → List Bytes → Extracted
  extract_loop i [] existing saved =
      ([], if is_empty saved then bail "zip had no file entries" else done saved)
  extract_loop i (e ∷ es) existing saved = elim e.name [
    | none ↦ ([], bail "zip entry")
    | some raw ↦
        if e.is_dir
        then extract_loop (suc i) es existing saved
        else (let safe =
              or_else (safe_basename raw) (codes "recv-" ++ (to_decimal i ++ codes ".bin")) in
            let dest = dedup_path existing dir safe in
            if can_create dest
            then elim e.content [
              | none ↦ ((dest, []) ∷ [], bail "extract")
              | some bytes ↦
                  wrote (dest, bytes)
                    (extract_loop (suc i) es (dest ∷ existing)
                      (saved ++ (or_else (file_name_of dest) safe ∷ [])))
            ]
            else ([], bail "create"))
  ]

  unfoldable pub extract_zip : List ZipEntry → List Bytes → Extracted
  extract_zip es existing = extract_loop 0 es existing []

try_numbers-is_path :
    (fuel : ℕ) (existing : List Bytes) (dir name : Bytes) (n : ℕ)
    → (is_path existing (try_numbers fuel existing dir name n) ≡ false)
      ⊎ ((k : ℕ) → n ≤ k → k < n + fuel → is_path existing (numbered dir name k) ≡ true)
unfolding try_numbers
try_numbers-is_path zero existing dir name n = inr (λ k a b. absurd (omega (arith, a, b)))
try_numbers-is_path (suc fuel) existing dir name n =
    elim (Bool-cases (is_path existing (numbered dir name n))) [
      | inr free ↦ inl (rw (try_numbers, free) free)
      | inl taken ↦ elim (try_numbers-is_path fuel existing dir name (n + 1)) [
        | inl free ↦ inl (rw (try_numbers, taken) free)
        | inr all ↦ inr (λ k a b. elim (Bool-cases (k == n)) [
          | inl same ↦
              ap (λ m. is_path existing (numbered dir name m)) ((==_iff k n).0 same) ∙ taken
          | inr other ↦ all k (ground (arith, a, other)) (omega (arith, b))
        ])
      ]
    ]

-- The path that is chosen does not exist, unless the name's own path and those of all 999 numbers do.
pub dedup_path-is_path :
    (existing : List Bytes) (dir name : Bytes)
    → (is_path existing (dedup_path existing dir name) ≡ false)
      ⊎ ((is_path existing (join dir name) ≡ true)
          × ((k : ℕ) → 1 ≤ k → k < 1000 → is_path existing (numbered dir name k) ≡ true))
unfolding dedup_path
dedup_path-is_path existing dir name = elim (Bool-cases (is_path existing (join dir name))) [
  | inr free ↦ inl (rw (dedup_path, free) free)
  | inl taken ↦ elim (try_numbers-is_path 999 existing dir name 1) [
    | inl free ↦ inl (rw (dedup_path, taken) free)
    | inr all ↦ inr (taken, all)
  ]
]
