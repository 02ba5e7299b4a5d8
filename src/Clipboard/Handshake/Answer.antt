-- ===== src/Clipboard/Handshake/Answer.antt =====
-- What the handshake sends, and that a reply ends it: crates/pcsuite-core/src/clipboard.rs.
use pcsuite_rs.Base.{
  ℕ, suc, ◌+◌, ◌≤◌, ◌≡◌, refl, sym, ◌∙◌, Bool, true, false, List, [], ◌∷◌, ◌++◌, Option, none, some,
  replicate, arith, Bool-cases, Option-cases, inl, inr, append_assoc, append-nil, ltb, All, ltb→lt,
}
use pcsuite_rs.Base.Wire.{Bytes}
use pcsuite_rs.Json.{Serde}
use pcsuite_rs.Clip.{PhoneSession, parse_shadow_reply, shadow_ready}
use pcsuite_rs.Clipboard.{link_down}
use pcsuite_rs.Clipboard.Handshake.{
  Event, message, lagged, channel_closed, deadline_passed, Hand, HandEnd, answered, with_session,
  set_link, await_relay, say, apply_shadow, handshake_loop, clip_handshake, shadow_startup_resends,
}

-- The handshake is answered, and the phone's session is stored.
pub record IsAnswered (sess : PhoneSession) (r : Hand × HandEnd) : Type 0 where
  pub ended : r.1 ≡ answered
  pub key_stored : r.0.shared.phone_key ≡ some sess.phone_key
  pub iv_stored : r.0.shared.phone_iv ≡ some sess.phone_iv
  pub id_stored : r.0.shared.phone_id ≡ sess.mobile_device_id

module _ (s : Serde) (startup : Bytes) (came_up : Bool) where
  -- `ready`, if the handshake was answered.
  abbrev pub ready_if : HandEnd → List Bytes
  ready_if answered = shadow_ready s ∷ []
  ready_if _ = []

  abbrev Sends : ℕ → Hand → Hand × HandEnd → Type 0
  Sends most h r =
      (k : ℕ) × (k ≤ most) × (r.0.sent ≡ h.sent ++ (replicate k startup ++ ready_if r.1))

  await_relay_sent : (h : Hand) → (await_relay came_up h).sent ≡ h.sent
  unfolding await_relay
  await_relay_sent h = ground arith

  loop_sends :
      (resent : ℕ) (armed : Bool) (es : List Event) (h : Hand)
      → resent ≤ 2
      → (k : ℕ) × (k + resent ≤ 2)
        × ((handshake_loop s startup came_up resent armed es h).0.sent
            ≡ h.sent
              ++ (replicate k startup
                  ++ ready_if (handshake_loop s startup came_up resent armed es h).1))
  unfolding handshake_loop apply_shadow
  loop_sends resent armed [] h b = (0, omega arith, sym (append-nil _))
  loop_sends resent armed (channel_closed ∷ es) h b = (0, omega arith, sym (append-nil _))
  loop_sends resent armed (lagged ∷ es) h b = loop_sends resent armed es h b
  loop_sends resent armed (message t ∷ es) h b = elim (Option-cases (parse_shadow_reply s t)) [
    | inl e ↦ rw (handshake_loop, apply_shadow, e) (loop_sends resent armed es h b)
    | inr (sess, e) ↦ rw (handshake_loop, apply_shadow, e) (0, omega arith, await_relay_sent _)
  ]
  loop_sends resent false (deadline_passed ∷ es) h b = loop_sends resent false es h b
  loop_sends resent true (deadline_passed ∷ es) h b = elim (Bool-cases (ltb resent 2)) [
    | inl more ↦
        let (k, bound, e) =
          loop_sends (suc resent) true es (say startup h) (omega (arith, ltb→lt resent 2 more)) in
        rw (handshake_loop, more)
          (suc k, omega (arith, bound), e ∙ append_assoc h.sent (startup ∷ []) _)
    | inr last ↦ rw (handshake_loop, last) (loop_sends resent false es (set_link link_down h) b)
  ]

  -- Whatever comes, `startup` is sent once and re-sent at most twice, and `ready` is sent behind these
  -- exactly if the handshake is answered; nothing else is sent.
  pub clip_handshake_sends :
      (last_shadow : Option Bytes) (es : List Event) (h : Hand)
      → let (after, end) = clip_handshake s startup came_up last_shadow es h in
        (k : ℕ) × (k ≤ shadow_startup_resends)
        × (after.sent ≡ h.sent ++ (replicate (suc k) startup ++ ready_if end))
  unfolding clip_handshake apply_shadow
  clip_handshake_sends none es h =
      let (k, bound, e) = loop_sends 0 true es (say startup h) (omega arith) in
      (k, omega (arith, bound), e ∙ append_assoc h.sent (startup ∷ []) _)
  clip_handshake_sends (some t) es h = elim (Option-cases (parse_shadow_reply s t)) [
    | inl e ↦
        let (k, bound, e') = loop_sends 0 true es (say startup h) (omega arith) in
        rw (clip_handshake, apply_shadow, e)
          (k, omega (arith, bound), e' ∙ append_assoc h.sent (startup ∷ []) _)
    | inr (sess, e) ↦
        rw (clip_handshake, apply_shadow, e)
          (0, omega arith, await_relay_sent _ ∙ append_assoc h.sent (startup ∷ []) _)
  ]

  -- Events that neither answer the handshake nor end the channel.
  abbrev pub IsQuiet : Event → Type 0
  IsQuiet (message t) = parse_shadow_reply s t ≡ none
  IsQuiet lagged = Unit
  IsQuiet deadline_passed = Unit
  IsQuiet channel_closed = ⊥

  await_relay-IsAnswered :
      (sess : PhoneSession) (h : Hand)
      → IsAnswered sess (h, answered)
      → IsAnswered sess (await_relay came_up h, answered)
  unfolding await_relay
  await_relay-IsAnswered sess h a = ground arith

  loop-IsAnswered :
      (resent : ℕ) (armed : Bool) (before later : List Event) (t : Bytes) (sess : PhoneSession)
      (h : Hand)
      → All IsQuiet before
      → parse_shadow_reply s t ≡ some sess
      → IsAnswered sess
          (handshake_loop s startup came_up resent armed (before ++ (message t ∷ later)) h)
  unfolding handshake_loop apply_shadow
  loop-IsAnswered resent armed [] later t sess h q e =
      rw (handshake_loop, apply_shadow, e)
        (await_relay-IsAnswered sess
          (say (shadow_ready s) (record h { shared = with_session sess h.shared }))
          (record { ended = refl; key_stored = refl; iv_stored = refl; id_stored = refl }))
  loop-IsAnswered resent armed (channel_closed ∷ es) later t sess h (q, qs) e = absurd q
  loop-IsAnswered resent armed (lagged ∷ es) later t sess h (q, qs) e =
      loop-IsAnswered resent armed es later t sess h qs e
  loop-IsAnswered resent armed (message u ∷ es) later t sess h (q, qs) e =
      rw (handshake_loop, apply_shadow, q) (loop-IsAnswered resent armed es later t sess h qs e)
  loop-IsAnswered resent false (deadline_passed ∷ es) later t sess h (q, qs) e =
      loop-IsAnswered resent false es later t sess h qs e
  loop-IsAnswered resent true (deadline_passed ∷ es) later t sess h (q, qs) e =
      elim (Bool-cases (ltb resent 2)) [
        | inl more ↦
            rw (handshake_loop, more)
              (loop-IsAnswered (suc resent) true es later t sess (say startup h) qs e)
        | inr last ↦
            rw (handshake_loop, last)
              (loop-IsAnswered resent false es later t sess (set_link link_down h) qs e)
      ]

  -- However late the phone's reply comes, as long as the channel is open and no reply was kept: the
  -- handshake ends with it, and the session of that reply is stored.
  pub clip_handshake-IsAnswered :
      (before later : List Event) (t : Bytes) (sess : PhoneSession) (h : Hand)
      → All IsQuiet before
      → parse_shadow_reply s t ≡ some sess
      → IsAnswered sess (clip_handshake s startup came_up none (before ++ (message t ∷ later)) h)
  unfolding clip_handshake
  clip_handshake-IsAnswered before later t sess h q e =
      loop-IsAnswered 0 true before later t sess (say startup h) q e
