-- ===== src/Share/Taps/Commits.antt =====
-- What a later connection does to the session before: crates/pcsuite-core/src/share.rs.
use pcsuite_rs.Base.{
  ℕ, suc, ◌<◌, ◌≡◌, ◌≢◌, ◌⊎◌, refl, sym, ap, ◌∙◌, Bool, true, false, some, none, inl, inr, arith,
}
use pcsuite_rs.Share.Taps.{
  Outer, reading, awaiting, over, aborted, Conn, Taps, is_live, is_finished, abort_conn, dropped,
  set_at, take_from, take_current, new_conn, tap, Moves, tapped, moved, Reach, here, then_step,
}
use pcsuite_rs.Share.Taps.Alone.{
  nobody, gone, kept, superseded, take_current-Taken, tap-from, set_at-cases, lives, Moves-IsMove,
  some-injective, none≢some, set_at_here, set_at_other, cancel_dead,
}

-- The connection has committed, was not aborted, and is the current one until it is over.
pub record IsSafe (i : ℕ) (w : Taps) : Type 0 where
  pub known : i < w.next
  pub chosen : (w.conns i).committed ≡ true
  pub alive : (w.conns i).outer ≢ aborted
  pub first : (w.current ≡ some i) ⊎ ((w.conns i).outer ≡ over)

finished_over : (o : Outer) → is_finished o ≡ true → o ≢ aborted → o ≡ over
finished_over reading f h = absurd (cc)
finished_over awaiting f h = absurd (cc)
finished_over over f h = refl
finished_over aborted f h = absurd (h refl)

-- A new connection at the end, and the others as they were.
add-IsSafe :
    (i : ℕ) (w v : Taps) (run : Bool)
    → i < w.next
    → (w.conns i).committed ≡ true
    → (w.conns i).outer ≢ aborted
    → v.conns ≡ set_at w.next (new_conn run) w.conns
    → v.next ≡ suc w.next
    → (v.current ≡ some i) ⊎ ((w.conns i).outer ≡ over)
    → IsSafe i v
add-IsSafe i w v run lt c al cs n f = elim (set_at-cases w.next (new_conn run) w.conns i) [
  | inl (e, at) ↦ absurd (omega (arith, lt, e))
  | inr (ne, at) ↦
      let same : v.conns i ≡ w.conns i = ap (λ g. g i) cs ∙ at in
      record {
        known = omega (arith, lt, n);
        chosen = ap (λ d. d.committed) same ∙ c;
        alive = λ h. al (sym (ap (λ d. d.outer) same) ∙ h);
        first = elim f [ inl now ↦ inl now | inr o ↦ inr (ap (λ d. d.outer) same ∙ o) ];
      }
]

tap-IsSafe : (i : ℕ) (w : Taps) → IsSafe i w → IsSafe i (tap w)
tap-IsSafe i w s = elim (take_current-Taken w) [
  | nobody e t ↦ rw (tap-from w w false t) (
      add-IsSafe i w _ true s.known s.chosen s.alive refl refl
        (elim s.first [ inl now ↦ absurd (none≢some (sym e ∙ now)) | inr o ↦ inr o ]))
  | gone k e f t ↦ rw (tap-from w (record w { current = none }) false t) (
      add-IsSafe i w _ true s.known s.chosen s.alive refl refl (elim s.first [
        | inl now ↦
            let same = some-injective (sym e ∙ now) in
            inr (
              finished_over ((w.conns i).outer)
                (ap (λ j. is_finished ((w.conns j).outer)) (sym same) ∙ f) s.alive)
        | inr o ↦ inr o
      ]))
  | kept k e f c t ↦
      rw (tap-from w w true t) (add-IsSafe i w _ false s.known s.chosen s.alive refl refl s.first)
  | superseded k e f c t ↦
      let v : Taps = record w {
        conns = set_at k (abort_conn (w.conns k)) w.conns;
        current = none;
      } in
      let k≢i : k ≢ i = λ x.
        let d : false ≡ true = sym c ∙ ap (λ j. (w.conns j).committed) x ∙ s.chosen in
        absurd (cc) in
      elim (set_at-cases k (abort_conn (w.conns k)) w.conns i) [
        | inl (x, at) ↦ absurd (k≢i (sym x))
        | inr (ne, at) ↦ rw (tap-from w v false t) (
            add-IsSafe i v _ true s.known (ap (λ d. d.committed) at ∙ s.chosen)
              (λ h. s.alive (sym (ap (λ d. d.outer) at) ∙ h)) refl refl
              (elim s.first [
                | inl now ↦ absurd (k≢i (some-injective (sym e ∙ now)))
                | inr o ↦ inr (ap (λ d. d.outer) at ∙ o)
              ]))
      ]
]

moved-IsSafe :
    (i : ℕ) (w : Taps) (j : ℕ) (c : Conn)
    → Moves (w.conns j) c
    → IsSafe i w
    → IsSafe i (record { conns = set_at j c w.conns; next = w.next; current = w.current })
moved-IsSafe i w j c m s = elim (set_at-cases j c w.conns i) [
  | inl (x, at) ↦
      let k = Moves-IsMove m in
      let here_ : w.conns i ≡ w.conns j = ap w.conns x in
      record {
        known = s.known;
        chosen =
            ap (λ d. d.committed) at
            ∙ k.committed_still (sym (ap (λ d. d.committed) here_) ∙ s.chosen);
        alive = λ h.
            s.alive (ap (λ d. d.outer) here_ ∙ k.aborted_before (sym (ap (λ d. d.outer) at) ∙ h));
        first = elim s.first [
          | inl now ↦ inl now
          | inr o ↦ inr (ap (λ d. d.outer) at ∙ k.over_still (sym (ap (λ d. d.outer) here_) ∙ o))
        ];
      }
  | inr (ne, at) ↦ record {
    known = s.known;
    chosen = ap (λ d. d.committed) at ∙ s.chosen;
    alive = λ h. s.alive (sym (ap (λ d. d.outer) at) ∙ h);
    first = elim s.first [ inl now ↦ inl now | inr o ↦ inr (ap (λ d. d.outer) at ∙ o) ];
  }
]

-- A session that has started its download is not aborted by the connections that come later, and it
-- remains the current one until its outer task is over: from a state where this holds to any that can be
-- reached.
pub Reach-IsSafe : (i : ℕ) {a b : Taps} → Reach a b → IsSafe i a → IsSafe i b
Reach-IsSafe i (here w) s = s
Reach-IsSafe i (then_step a r (tapped w)) s = tap-IsSafe i w (Reach-IsSafe i r s)
Reach-IsSafe i (then_step a r (moved w j c m)) s = moved-IsSafe i w j c m (Reach-IsSafe i r s)

-- A new connection aborts the current session that has no task yet; if that session has read its
-- connect frame, its inner task runs on beside the new one, and if not, it is stopped.
pub tap-supersedes :
    (w : Taps) (i : ℕ)
    → i < w.next
    → w.current ≡ some i
    → is_finished ((w.conns i).outer) ≡ false
    → (w.conns i).committed ≡ false
    → ((tap w).current ≡ some w.next)
      × (lives ((tap w).conns w.next) ≡ true)
      × (((tap w).conns i).outer ≡ aborted)
      × ((w.conns i).outer ≡ awaiting → lives ((tap w).conns i) ≡ lives (w.conns i))
      × ((w.conns i).outer ≡ reading → lives ((tap w).conns i) ≡ false)
unfolding take_from
tap-supersedes w i lt e f c =
    let v : Taps = record w { conns = set_at i (abort_conn (w.conns i)) w.conns; current = none } in
    let t : take_current w ≡ (false, v) = ap (λ o. take_from o w) e ∙ rw (f, c) refl in
    let at_next = set_at_here w.next (new_conn true) v.conns in
    let at_i : set_at w.next (new_conn true) v.conns i ≡ abort_conn (w.conns i) =
      set_at_other w.next i (new_conn true) v.conns (λ x. absurd (omega (arith, lt, x)))
      ∙ set_at_here i (abort_conn (w.conns i)) w.conns in
    rw (tap-from w v false t) (
      refl,
      ap lives at_next,
      ap (λ d. d.outer) at_i,
      λ h. ap lives at_i ∙ ap (λ o. is_live (dropped o (w.conns i).inner)) h,
      λ h.
          ap lives at_i
          ∙ ap (λ o. is_live (dropped o (w.conns i).inner)) h
          ∙ cancel_dead (w.conns i).inner,
    )
