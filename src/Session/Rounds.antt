-- ===== src/Session/Rounds.antt =====
-- What every part of a round keeps, the whole loop keeps: crates/pcsuite-core/src/session.rs.
use pcsuite_rs.Base.{
  ℕ, ◌-◌, ◌≡◌, ◌≢◌, ◌⊎◌, refl, ap, Bool, List, [], ◌∷◌, ◌++◌, length, Bool-cases, inl, inr, leb,
}
use pcsuite_rs.Base.Wire.{Bytes}
use pcsuite_rs.Json.{Serde}
use pcsuite_rs.Session.{
  DeadReason, Got, got_text, got_ping, got_binary, got_close, got_other, got_error, timed_out,
  Round, Sent, sent_text, sent_pong, Control, Turn, goes_on, leaves, panics, ◌>>=◌, on_text, send,
  receive, flush, keep_alive, one_round, rounds, keepalive,
}

pub Turn-cases :
    (t : Turn)
    → ((c : Control) × (t ≡ goes_on c))
      ⊎ ((c : Control) × (why : DeadReason) × (t ≡ leaves c why))
      ⊎ ((c : Control) × (u : Bytes) × (t ≡ panics c u))
Turn-cases (goes_on c) = inl (c, refl)
Turn-cases (leaves c why) = inr (inl (c, why, refl))
Turn-cases (panics c u) = inr (inr (c, u, refl))

goes_on-injective : {a b : Control} → goes_on a ≡ goes_on b → a ≡ b
goes_on-injective e = cc

leaves≢goes_on : {a b : Control} {why : DeadReason} → leaves a why ≢ goes_on b
leaves≢goes_on e = cc

panics≢goes_on : {a b : Control} {t : Bytes} → panics a t ≢ goes_on b
panics≢goes_on e = cc

-- The state that a turn leaves has the property; a text at which the task panicked counts as received.
abbrev pub Holds {ℓ} : (Control → Type ℓ) → Turn → Type ℓ
Holds P (goes_on c) = P c
Holds P (leaves c why) = P c
Holds P (panics c t) = P (record c { broadcasts = c.broadcasts ++ (t ∷ []) })

Holds-bind {ℓ} :
    (P : Control → Type ℓ) (m : Turn) (f : Control → Turn)
    → Holds P m
    → ((c : Control) → P c → Holds P (f c))
    → Holds P (m >>= f)
Holds-bind P (goes_on c) f h k = k c h
Holds-bind P (leaves c why) f h k = h
Holds-bind P (panics c t) f h k = h

-- A property that sending, the keepalive's instant and a text keep.
pub record IsKept {ℓ} (s : Serde) (P : Control → Type ℓ) : Type ℓ where
  pub by_send : (m : Sent) (c : Control) → P c → P (record c { wire = c.wire ++ (m ∷ []) })
  pub by_keepalive : (now : ℕ) (c : Control) → P c → P (record c { last_ka = now })
  pub by_text : (t : Bytes) (c : Control) → P c → Holds P (on_text s t c)

module _ {ℓ} (s : Serde) (link_up : ℕ → Bool) (P : Control → Type ℓ) (k : IsKept s P) where
  send-Holds : (m : Sent) (c : Control) → P c → Holds P (send s link_up m c)
  send-Holds m c h = elim (Bool-cases (link_up (length c.wire))) [
    | inl up ↦ rw up (k.by_send m c h)
    | inr down ↦ rw down h
  ]

  receive-Holds : (g : Got) (c : Control) → P c → Holds P (receive s link_up g c)
  receive-Holds (got_text t) c h = k.by_text t c h
  receive-Holds (got_ping p) c h = send-Holds (sent_pong p) c h
  receive-Holds got_close c h = h
  receive-Holds (got_binary b) c h = h
  receive-Holds got_other c h = h
  receive-Holds got_error c h = h
  receive-Holds timed_out c h = h

  flush-Holds : (ms : List Bytes) (c : Control) → P c → Holds P (flush s link_up ms c)
  flush-Holds [] c h = h
  flush-Holds (m ∷ ms) c h =
      Holds-bind P (send s link_up (sent_text m) c) (flush s link_up ms)
        (send-Holds (sent_text m) c h) (flush-Holds ms)

  keep_alive-Holds : (now : ℕ) (c : Control) → P c → Holds P (keep_alive s link_up now c)
  keep_alive-Holds now c h = elim (Bool-cases (leb 3000 (now - c.last_ka))) [
    | inl due ↦ rw due (
        Holds-bind P (send s link_up (sent_text keepalive) c)
          (λ c'. goes_on (record c' { last_ka = now })) (send-Holds (sent_text keepalive) c h)
          (λ c' h'. k.by_keepalive now c' h'))
    | inr early ↦ rw early h
  ]

  -- A round whose receive leaves the property keeps it to its end.
  pub round-receive :
      (r : Round) (c : Control)
      → Holds P (receive s link_up r.received c)
      → Holds P (one_round s link_up r c)
  unfolding one_round
  round-receive r c h =
      Holds-bind P (receive s link_up r.received c)
        (λ c'. flush s link_up r.queued c' >>= keep_alive s link_up r.now) h
        (λ c' h'.
          Holds-bind P (flush s link_up r.queued c') (keep_alive s link_up r.now)
            (flush-Holds r.queued c' h') (keep_alive-Holds r.now))

  pub rounds-next :
      (r : Round) (rs : List Round) (c : Control)
      → Holds P (one_round s link_up r c)
      → ((c' : Control) → P c' → Holds P (rounds s link_up rs c'))
      → Holds P (rounds s link_up (r ∷ rs) c)
  unfolding rounds
  rounds-next r rs c here later = elim (Turn-cases (one_round s link_up r c)) [
    | inl (c', e) ↦ rw (rounds, e) (later c' (rw e at here))
    | inr (inl (c', why, e)) ↦ rw (rounds, e) (rw e at here)
    | inr (inr (c', t, e)) ↦ rw (rounds, e) (rw e at here)
  ]

  pub rounds_hold : (rs : List Round) (c : Control) → P c → Holds P (rounds s link_up rs c)
  unfolding rounds
  rounds_hold [] c h = h
  rounds_hold (r ∷ rs) c h =
      rounds-next r rs c (round-receive r c (receive-Holds r.received c h)) (rounds_hold rs)

-- After rounds that the loop survives, the later ones go on from their state.
pub rounds-append :
    (s : Serde) (link_up : ℕ → Bool) (before after : List Round) (c c' : Control)
    → rounds s link_up before c ≡ goes_on c'
    → rounds s link_up (before ++ after) c ≡ rounds s link_up after c'
unfolding rounds
rounds-append s link_up [] after c c' e = ap (rounds s link_up after) (goes_on-injective e)
rounds-append s link_up (r ∷ before) after c c' e = elim (Turn-cases (one_round s link_up r c)) [
  | inl (d, at_) ↦
      rw (rounds, at_) (rounds-append s link_up before after d c' (rw (rounds, at_) at e))
  | inr (inl (d, why, at_)) ↦ absurd (leaves≢goes_on (rw (rounds, at_) at e))
  | inr (inr (d, t, at_)) ↦ absurd (panics≢goes_on (rw (rounds, at_) at e))
]
