-- ===== src/Session/Ending.antt =====
-- How the control task ends: crates/pcsuite-core/src/session.rs.
use native.Mathlib.Decide.{dec_lt}
use pcsuite_rs.Base.{
  ℕ, zero, suc, ltb, leb, ◌≤◌, ◌≡◌, ◌↔◌, refl, Bool, true, false, not, ◌||◌, ◌&&◌, List, [], ◌∷◌,
  length, min, ◌<◌, Bool-cases, inl, inr, arith, get_elem?, some, none, ◌++◌, ◌≢◌, bytes_eq_iff,
}
use pcsuite_rs.Base.Wire.{Bytes, codes}
use pcsuite_rs.Base.Text.{trim}
use pcsuite_rs.Base.Text.Parts.{to_ascii_lowercase}
use pcsuite_rs.Json.{Serde}
use pcsuite_rs.Session.{
  closed_by_phone, Round, Control, Turn, goes_on, leaves, panics, is_char_boundary, on_text, rounds,
  control_task, is_file_related, head_panics, with_text, says_close, got_text, receive,
}
use pcsuite_rs.Session.Rounds.{
  Holds, IsKept, rounds_hold, rounds-next, rounds-append, round-receive, Turn-cases,
}

get_elem?_end : (t : Bytes) → get_elem? t (length t) ≡ none
get_elem?_end [] = refl
get_elem?_end (b ∷ t) = get_elem?_end t

get_elem?-some : (t : Bytes) (i : ℕ) → i < length t → (b : ℕ) × (get_elem? t i ≡ some b)
get_elem?-some [] i h = absurd (omega arith)
get_elem?-some (b ∷ t) zero h = (b, refl)
get_elem?-some (b ∷ t) (suc i) h = get_elem?-some t i (omega arith)

-- A text of at most 500 bytes is cut at its end.
short_cut : (t : Bytes) → length t ≤ 500 → head_panics t ≡ false
unfolding head_panics is_char_boundary
short_cut t h =
    let m : min (length t) 500 ≡ length t = omega arith in
    let past : get_elem? t (min (length t) 500) ≡ none = rw m (get_elem?_end t) in
    ground (arith, m, past)

long_cut :
    (t : Bytes) (b : ℕ)
    → 500 < length t
    → get_elem? t 500 ≡ some b
    → head_panics t ≡ not (ltb b 128 || leb 192 b)
unfolding head_panics is_char_boundary
long_cut t b h e = let m : min (length t) 500 ≡ 500 = omega arith in rw (m, e) refl

-- The 500th and the 501st byte of the text are in one character.
pub record IsCutBadly (t : Bytes) : Type 0 where
  pub long : 500 < length t
  pub byte : ℕ
  pub there : get_elem? t 500 ≡ some byte
  pub continues : (128 ≤ byte) × (byte < 192)

head_panics-IsCutBadly : (t : Bytes) → (head_panics t ≡ true) ↔ IsCutBadly t
head_panics-IsCutBadly t = (forth, back)
  where
    forth : head_panics t ≡ true → IsCutBadly t
    forth h = elim (dec_lt 500 (length t)) [
      | no short ↦ let f = short_cut t (omega (arith, short)) in cc
      | yes long ↦
          let (b, e) = get_elem?-some t 500 long in
          let f = long_cut t b long e in
          record { long = long; byte = b; there = e; continues = ground (arith, f, h) }
    ]

    back : IsCutBadly t → head_panics t ≡ true
    back c = ground (arith, long_cut t c.byte c.long c.there, c.continues)

-- A turn that, if it ends without a panic, ends because the phone closed the session.
abbrev pub IsClosed : Turn → Type 0
IsClosed (goes_on c) = Unit
IsClosed (leaves c why) = why ≡ closed_by_phone
IsClosed (panics c t) = Unit

abbrev IsClosing : Control → Type 0
IsClosing c = c.peer_said_close ≡ true

module _ (s : Serde) where
  close_kept : IsKept s IsClosing
  unfolding on_text
  close_kept = record {
    by_send = λ m c h. h;
    by_keepalive = λ now c h. h;
    by_text = λ t c h. ground (arith, h);
  }

  on_text-IsClosing :
      (t : Bytes) (c : Control)
      → to_ascii_lowercase (trim t) ≡ codes "close"
      → Holds IsClosing (on_text s t c)
  unfolding on_text says_close
  on_text-IsClosing t c e =
      let said : says_close t ≡ true =
        (bytes_eq_iff (to_ascii_lowercase (trim t)) (codes "close")).1 e in
      elim (Bool-cases (is_file_related t && head_panics t)) [
        | inl bad ↦ rw (on_text, bad, said) refl
        | inr good ↦ rw (on_text, good, said) refl
      ]

  -- Once a text of the phone, apart from white space and case, is "close", the reason that is published
  -- when the loop ends is that the phone closed the session: whatever came before that the loop
  -- survived, whatever comes later, and however the link ends.
  pub control_task-IsClosed :
      (link_up : ℕ → Bool) (before after : List Round) (r : Round) (t : Bytes) (c₀ c : Control)
      → rounds s link_up before c₀ ≡ goes_on c
      → r.received ≡ got_text t
      → to_ascii_lowercase (trim t) ≡ codes "close"
      → IsClosed (control_task s link_up (before ++ (r ∷ after)) c₀)
  unfolding control_task
  control_task-IsClosed link_up before after r t c₀ c e got close =
      let first : Holds IsClosing (receive s link_up r.received c) =
        rw got (on_text-IsClosing t c close) in
      let all : Holds IsClosing (rounds s link_up (r ∷ after) c) =
        rounds-next s link_up IsClosing close_kept r after c
          (round-receive s link_up IsClosing close_kept r c first)
          (rounds_hold s link_up IsClosing close_kept after) in
      let kept : Holds IsClosing (rounds s link_up (before ++ (r ∷ after)) c₀) =
        rw (rounds-append s link_up before (r ∷ after) c₀ c e) all in
      elim (Turn-cases (rounds s link_up (before ++ (r ∷ after)) c₀)) [
        | inl (c', at_) ↦ rw (control_task, at_) tt
        | inr (inl (c', why, at_)) ↦
            let said : c'.peer_said_close ≡ true = rw at_ at kept in
            rw (control_task, at_, said) refl
        | inr (inr (c', u, at_)) ↦ rw (control_task, at_) tt
      ]

goes_on≢panics : {a b : Control} {t : Bytes} → goes_on a ≢ panics b t
goes_on≢panics e = cc

-- A text makes the task panic exactly if it is about files, longer than 500 bytes, and has its 500th and
-- 501st byte in one character: the log line takes the first 500 bytes of it as text.
pub on_text-panics :
    (s : Serde) (t : Bytes) (c : Control)
    → ((after : Control) × (on_text s t c ≡ panics after t))
      ↔ ((is_file_related t ≡ true) × IsCutBadly t)
unfolding on_text
on_text-panics s t c = (forth, back)
  where
    forth :
        (after : Control) × (on_text s t c ≡ panics after t)
        → (is_file_related t ≡ true) × IsCutBadly t
    forth (after, e) = elim (Bool-cases (is_file_related t && head_panics t)) [
      | inl both ↦ (ground (arith, both), (head_panics-IsCutBadly t).0 (ground (arith, both)))
      | inr not_both ↦ absurd (goes_on≢panics (rw (on_text, not_both) at e))
    ]

    back :
        (is_file_related t ≡ true) × IsCutBadly t
        → (after : Control) × (on_text s t c ≡ panics after t)
    back (f, b) = (with_text s t c, rw (on_text, f, (head_panics-IsCutBadly t).1 b) refl)
