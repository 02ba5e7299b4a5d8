-- ===== src/Share/Taps/Alone.antt =====
-- Which sessions run beside the current one: crates/pcsuite-core/src/share.rs.
use pcsuite_rs.Base.{
  ℕ, suc, ◌≡◌, ◌≢◌, ◌⊎◌, refl, sym, ap, ◌∙◌, Bool, true, false, not, Option, none, some, ◌==◌,
  if◌then◌else◌, Bool-cases, Option-cases, inl, inr, ==-refl, ==-≢, arith,
}
use pcsuite_rs.Share.Taps.{
  Outer, reading, awaiting, over, aborted, Inner, Conn, Taps, is_live, is_finished, cancel,
  abort_conn, set_at, take_from, take_current, new_conn, tap, Moves, reads_frame, answers_idle,
  drops, commits, ends, answers, tapped, moved, Reach, here, then_step, no_taps,
}

pub set_at_here : (i : ℕ) (c : Conn) (f : ℕ → Conn) → set_at i c f i ≡ c
set_at_here i c f = rw (==-refl i) refl

pub set_at_other : (i j : ℕ) (c : Conn) (f : ℕ → Conn) → j ≢ i → set_at i c f j ≡ f j
set_at_other i j c f h = rw (==-≢ j i h) refl

pub set_at-cases :
    (i : ℕ) (c : Conn) (f : ℕ → Conn) (j : ℕ)
    → ((j ≡ i) × (set_at i c f j ≡ c)) ⊎ ((j ≢ i) × (set_at i c f j ≡ f j))
set_at-cases i c f j = elim (Bool-cases (j == i)) [
  | inl e ↦ inl (ground (arith, e), rw e refl)
  | inr e ↦ inr (λ x. absurd (ground (arith, x, e)), rw e refl)
]

abbrev pub lives : Conn → Bool
lives c = is_live c.inner

pub cancel_dead : (i : Inner) → is_live (cancel i) ≡ false
cancel_dead i = elim (Bool-cases (is_live i)) [ inl e ↦ rw e refl | inr e ↦ rw (e, e) refl ]

over≢aborted : over ≢ aborted
over≢aborted e = cc

-- What the accept loop did with the session before.
pub data Taken (w : Taps) : Type 0 where
  nobody : w.current ≡ none → take_current w ≡ (false, w) → Taken w
  gone :
      (i : ℕ)
      → w.current ≡ some i
      → is_finished ((w.conns i).outer) ≡ true
      → take_current w ≡ (false, record w { current = none })
      → Taken w
  kept :
      (i : ℕ)
      → w.current ≡ some i
      → is_finished ((w.conns i).outer) ≡ false
      → (w.conns i).committed ≡ true
      → take_current w ≡ (true, w)
      → Taken w
  superseded :
      (i : ℕ)
      → w.current ≡ some i
      → is_finished ((w.conns i).outer) ≡ false
      → (w.conns i).committed ≡ false
      → take_current w
        ≡ (false, record w { conns = set_at i (abort_conn (w.conns i)) w.conns; current = none })
      → Taken w

pub take_current-Taken : (w : Taps) → Taken w
unfolding take_from
take_current-Taken w = elim (Option-cases w.current) [
  | inl e ↦ nobody e (ap (λ o. take_from o w) e)
  | inr (i, e) ↦
      let from = ap (λ o. take_from o w) e in
      elim (Bool-cases (is_finished ((w.conns i).outer))) [
        | inl f ↦ gone i e f (from ∙ rw f refl)
        | inr f ↦ elim (Bool-cases (w.conns i).committed) [
          | inl c ↦ kept i e f c (from ∙ rw (f, c) refl)
          | inr c ↦ superseded i e f c (from ∙ rw (f, c) refl)
        ]
      ]
]

-- A connection's inner task runs only if the connection is the current one, or if the accept loop has
-- aborted its outer task; the inner task of one that is over does not run.
pub record IsAlone (w : Taps) : Type 0 where
  pub sole :
      (i : ℕ)
      → is_live (w.conns i).inner ≡ true
      → (w.current ≡ some i) ⊎ ((w.conns i).outer ≡ aborted)
  pub done_dead : (i : ℕ) → (w.conns i).outer ≡ over → is_live (w.conns i).inner ≡ false

pub some-injective : {i j : ℕ} → some i ≡ some j → i ≡ j
some-injective e = cc

reading≢over : reading ≢ over
reading≢over e = cc

finished_live :
    (o : Outer) (l : Bool) → (o ≡ over → l ≡ false) → is_finished o ≡ true → l ≡ true → o ≡ aborted
finished_live reading l dead f h = absurd (cc)
finished_live awaiting l dead f h = absurd (cc)
finished_live over l dead f h = let d = dead refl in absurd (cc)
finished_live aborted l dead f h = refl

pub none≢some : {i : ℕ} → none ≢ some i
none≢some e = cc

-- The world behind a tap, from what was done with the session before.
pub tap-from :
    (w w' : Taps) (busy : Bool)
    → take_current w ≡ (busy, w')
    → tap w ≡ record {
      conns = set_at w'.next (new_conn (not busy)) w'.conns;
      next = suc w'.next;
      current = if busy then w'.current else some w'.next;
    }
unfolding tap
tap-from w w' busy e = ap after e
  where
    after : Bool × Taps → Taps
    after (b, v) = record {
      conns = set_at v.next (new_conn (not b)) v.conns;
      next = suc v.next;
      current = if b then v.current else some v.next;
    }

-- A new connection that is the current one, or that has no inner task.
add-IsAlone :
    (w : Taps) (now : Option ℕ) (run : Bool)
    → ((i : ℕ)
        → i ≢ w.next
        → is_live (w.conns i).inner ≡ true
        → (now ≡ some i) ⊎ ((w.conns i).outer ≡ aborted))
    → ((i : ℕ) → (w.conns i).outer ≡ over → is_live (w.conns i).inner ≡ false)
    → (run ≡ true → now ≡ some w.next)
    → IsAlone
        (record { conns = set_at w.next (new_conn run) w.conns; next = suc w.next; current = now })
add-IsAlone w now run others dead mine = record {
  sole = λ i h. elim (set_at-cases w.next (new_conn run) w.conns i) [
    | inl (e, here_) ↦ inl (new_live (sym (ap lives here_) ∙ h) ∙ ap some (sym e))
    | inr (ne, there) ↦ elim (others i ne (sym (ap lives there) ∙ h)) [
      | inl c ↦ inl c
      | inr o ↦ inr (ap (λ c. c.outer) there ∙ o)
    ]
  ];
  done_dead = λ i h. elim (set_at-cases w.next (new_conn run) w.conns i) [
    | inl (e, here_) ↦ absurd (reading≢over (sym (ap (λ c. c.outer) here_) ∙ h))
    | inr (ne, there) ↦ ap lives there ∙ dead i (sym (ap (λ c. c.outer) there) ∙ h)
  ];
}
  where
    new_live : lives (new_conn run) ≡ true → now ≡ some w.next
    new_live h = elim (Bool-cases run) [
      | inl e ↦ mine e
      | inr e ↦ let off : false ≡ true = rw e at h in absurd (cc)
    ]

tap-IsAlone : (w : Taps) → IsAlone w → IsAlone (tap w)
tap-IsAlone w a = elim (take_current-Taken w) [
  | nobody e t ↦ rw (tap-from w w false t) (
      add-IsAlone w (some w.next) true
        (λ i ne h. elim (a.sole i h) [ inl c ↦ absurd (none≢some (sym e ∙ c)) | inr o ↦ inr o ])
        a.done_dead (λ x. refl))
  | gone k e f t ↦ rw (tap-from w (record w { current = none }) false t) (
      add-IsAlone (record w { current = none }) (some w.next) true
        (λ i ne h. elim (a.sole i h) [
          | inl c ↦ inr (gone_aborted k i f h (some-injective (sym e ∙ c)))
          | inr o ↦ inr o
        ])
        a.done_dead (λ x. refl))
  | kept k e f c t ↦
      rw (tap-from w w true t)
        (add-IsAlone w w.current false (λ i ne h. a.sole i h) a.done_dead (λ x. absurd (cc)))
  | superseded k e f c t ↦
      let v : Taps = record w {
        conns = set_at k (abort_conn (w.conns k)) w.conns;
        current = none;
      } in
      rw (tap-from w v false t)
        (add-IsAlone v (some w.next) true (λ i ne h. inr (others k e i h)) (dead k) (λ x. refl))
]
  where
    -- One that is finished but not over was aborted.
    gone_aborted :
        (k i : ℕ)
        → is_finished ((w.conns k).outer) ≡ true
        → lives (w.conns i) ≡ true
        → k ≡ i
        → (w.conns i).outer ≡ aborted
    gone_aborted k i f h e =
        finished_live (w.conns i).outer (lives (w.conns i)) (a.done_dead i)
          (ap (λ n. is_finished ((w.conns n).outer)) (sym e) ∙ f) h

    others :
        (k : ℕ)
        → w.current ≡ some k
        → (i : ℕ) → lives (set_at k (abort_conn (w.conns k)) w.conns i) ≡ true
        → (set_at k (abort_conn (w.conns k)) w.conns i).outer ≡ aborted
    others k e i h = elim (set_at-cases k (abort_conn (w.conns k)) w.conns i) [
      | inl (same, at) ↦ ap (λ c. c.outer) at
      | inr (ne, at) ↦ elim (a.sole i (sym (ap lives at) ∙ h)) [
        | inl c ↦ absurd (ne (some-injective (sym c ∙ e)))
        | inr o ↦ ap (λ c. c.outer) at ∙ o
      ]
    ]

    dead :
        (k i : ℕ)
        → (set_at k (abort_conn (w.conns k)) w.conns i).outer ≡ over
        → lives (set_at k (abort_conn (w.conns k)) w.conns i) ≡ false
    dead k i h = elim (set_at-cases k (abort_conn (w.conns k)) w.conns i) [
      | inl (same, at) ↦ absurd (over≢aborted (sym h ∙ ap (λ c. c.outer) at))
      | inr (ne, at) ↦ ap lives at ∙ a.done_dead i (sym (ap (λ c. c.outer) at) ∙ h)
    ]

-- What a move of a connection's own tasks keeps.
pub record IsMove (c d : Conn) : Type 0 where
  pub lived : lives d ≡ true → lives c ≡ true
  pub aborted_still : c.outer ≡ aborted → d.outer ≡ aborted
  pub aborted_before : d.outer ≡ aborted → c.outer ≡ aborted
  pub over_still : c.outer ≡ over → d.outer ≡ over
  pub over_dead : (c.outer ≡ over → lives c ≡ false) → d.outer ≡ over → lives d ≡ false
  pub committed_still : c.committed ≡ true → d.committed ≡ true

pub Moves-IsMove : {c d : Conn} → Moves c d → IsMove c d
Moves-IsMove (reads_frame i c live) = record {
  lived = λ h. h;
  aborted_still = λ h. absurd (cc);
  aborted_before = λ h. absurd (cc);
  over_still = λ h. absurd (cc);
  over_dead = λ k h. absurd (cc);
  committed_still = λ h. h;
}
Moves-IsMove (answers_idle c) = record {
  lived = λ h. h;
  aborted_still = λ h. absurd (cc);
  aborted_before = λ h. absurd (cc);
  over_still = λ h. absurd (cc);
  over_dead = λ k h. refl;
  committed_still = λ h. h;
}
Moves-IsMove (drops i c) = record {
  lived = λ h. let d = cancel_dead i in absurd (cc);
  aborted_still = λ h. absurd (cc);
  aborted_before = λ h. absurd (cc);
  over_still = λ h. absurd (cc);
  over_dead = λ k h. cancel_dead i;
  committed_still = λ h. h;
}
Moves-IsMove (commits o i c live) = record {
  lived = λ h. live;
  aborted_still = λ h. h;
  aborted_before = λ h. h;
  over_still = λ h. h;
  over_dead = λ k h. let d = k h in absurd (cc);
  committed_still = λ h. refl;
}
Moves-IsMove (ends o i c live) = record {
  lived = λ h. live;
  aborted_still = λ h. h;
  aborted_before = λ h. h;
  over_still = λ h. h;
  over_dead = λ k h. refl;
  committed_still = λ h. h;
}
Moves-IsMove (answers i c dead) = record {
  lived = λ h. h;
  aborted_still = λ h. absurd (cc);
  aborted_before = λ h. absurd (cc);
  over_still = λ h. absurd (cc);
  over_dead = λ k h. dead;
  committed_still = λ h. h;
}

moved-IsAlone :
    (w : Taps) (i : ℕ) (c : Conn)
    → Moves (w.conns i) c
    → IsAlone w
    → IsAlone (record { conns = set_at i c w.conns; next = w.next; current = w.current })
moved-IsAlone w i c m a =
    let k = Moves-IsMove m in
    record {
      sole = λ j h. elim (set_at-cases i c w.conns j) [
        | inl (e, at) ↦ elim (a.sole i (k.lived (sym (ap lives at) ∙ h))) [
          | inl now ↦ inl (now ∙ ap some (sym e))
          | inr o ↦ inr (ap (λ d. d.outer) at ∙ k.aborted_still o)
        ]
        | inr (ne, at) ↦ elim (a.sole j (sym (ap lives at) ∙ h)) [
          | inl now ↦ inl now
          | inr o ↦ inr (ap (λ d. d.outer) at ∙ o)
        ]
      ];
      done_dead = λ j h. elim (set_at-cases i c w.conns j) [
        | inl (e, at) ↦ ap lives at ∙ k.over_dead (a.done_dead i) (sym (ap (λ d. d.outer) at) ∙ h)
        | inr (ne, at) ↦ ap lives at ∙ a.done_dead j (sym (ap (λ d. d.outer) at) ∙ h)
      ];
    }

Reach-keeps_IsAlone : {a b : Taps} → Reach a b → IsAlone a → IsAlone b
Reach-keeps_IsAlone (here w) h = h
Reach-keeps_IsAlone (then_step a r (tapped w)) h = tap-IsAlone w (Reach-keeps_IsAlone r h)
Reach-keeps_IsAlone (then_step a r (moved w i c m)) h =
    moved-IsAlone w i c m (Reach-keeps_IsAlone r h)

no_taps-IsAlone : IsAlone no_taps
no_taps-IsAlone = record { sole = λ i h. absurd (cc); done_dead = λ i h. refl }

-- Whatever connections come and whatever the tasks do: the inner task of a connection runs only while
-- the connection is the current one or after the accept loop has aborted its outer task, and never after
-- the outer task is over.
pub Reach-IsAlone : (w : Taps) → Reach no_taps w → IsAlone w
Reach-IsAlone w r = Reach-keeps_IsAlone r no_taps-IsAlone
