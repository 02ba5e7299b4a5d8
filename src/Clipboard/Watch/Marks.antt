-- ===== src/Clipboard/Watch/Marks.antt =====
-- How long a text counts as just synced: crates/pcsuite-core/src/clipboard.rs.
use pcsuite_rs.Base.{
  ℕ, ◌-◌, ◌<◌, ◌≡◌, refl, sym, ◌∙◌, false, List, [], ◌∷◌, some, bytes_eq, bytes_eq_iff,
  bytes_eq_refl, ltb, arith, Bool-cases, inl, inr, lt→ltb,
}
use pcsuite_rs.Base.Wire.{Bytes}
use pcsuite_rs.Clipboard.{
  Shared, echo_window, mark, recently_synced, recent_at, retain_recent, without,
}

-- Marks of texts at instants, in order.
abbrev pub mark_all : List (Bytes × ℕ) → Shared → Shared
mark_all [] sh = sh
mark_all ((t, at) ∷ ms) sh = mark_all ms (mark t at sh)

-- Each mark is of another text than `t`, and at an instant at which a mark at `now` still counts.
abbrev pub AreOther : Bytes → ℕ → List (Bytes × ℕ) → Type 0
AreOther t now [] = Unit
AreOther t now ((u, at) ∷ ms) =
    (bytes_eq t u ≡ false) × (at - now < echo_window) × AreOther t now ms

pub without_other :
    (t u : Bytes) (xs : List (Bytes × ℕ))
    → bytes_eq t u ≡ false
    → recent_at t (without u xs) ≡ recent_at t xs
without_other t u [] n = refl
without_other t u ((v, ts) ∷ xs) n = elim (Bool-cases (bytes_eq u v)) [
  | inl same ↦
      let e : u ≡ v = (bytes_eq_iff u v).0 same in
      let n' : bytes_eq t v ≡ false = rw (← e) n in rw (same, n') (without_other t u xs n)
  | inr other ↦ rw (other, without_other t u xs n) refl
]

pub retained :
    (t : Bytes) (at now : ℕ) (xs : List (Bytes × ℕ))
    → at - now < echo_window
    → recent_at t xs ≡ some now
    → recent_at t (retain_recent at xs) ≡ some now
retained t at now [] h e = cc
retained t at now ((v, ts) ∷ xs) h e = elim (Bool-cases (bytes_eq t v)) [
  | inl same ↦
      let now_is : some ts ≡ some now = sym (rw same refl) ∙ e in
      let ts_is : ts ≡ now = cc in rw (ts_is, lt→ltb (at - now) echo_window h, same) refl
  | inr other ↦
      let later : recent_at t xs ≡ some now = sym (rw other refl) ∙ e in
      elim (Bool-cases (ltb (at - ts) echo_window)) [
        | inl keep ↦ rw (keep, other) (retained t at now xs h later)
        | inr drop_it ↦ rw drop_it (retained t at now xs h later)
      ]
]

marks_keep :
    (t : Bytes) (now : ℕ) (ms : List (Bytes × ℕ)) (sh : Shared)
    → AreOther t now ms
    → recent_at t sh.recent ≡ some now
    → recent_at t (mark_all ms sh).recent ≡ some now
marks_keep t now [] sh o e = e
marks_keep t now ((u, at) ∷ ms) sh (n, h, o) e = marks_keep t now ms (mark u at sh) o (
    unfold mark in
    retained t at now ((u, at) ∷ without u sh.recent) h (rw (n, without_other t u sh.recent n) e))

-- A text marked at an instant counts as just synced for the six seconds of the echo window and no
-- longer, whatever other texts were marked since, while the mark counted.
pub recently_synced-mark :
    (t : Bytes) (now later : ℕ) (ms : List (Bytes × ℕ)) (sh : Shared)
    → AreOther t now ms
    → recently_synced t later (mark_all ms (mark t now sh)) ≡ ltb (later - now) echo_window
unfolding recently_synced
recently_synced-mark t now later ms sh o =
    rw
      (
        recently_synced,
        marks_keep t now ms (mark t now sh) o (
            unfold mark in
            retained t now now ((t, now) ∷ without t sh.recent) (omega arith)
              (rw (bytes_eq_refl t) refl)),
      )
      refl
