-- ===== src/Share/Pull/Acks.antt =====
-- What the phone hears while the exchange goes on: crates/pcsuite-core/src/share.rs.
use pcsuite_rs.Base.{
  ℕ, ◌≡◌, ◌≢◌, sym, ap, ◌∙◌, Bool, true, List, [], ◌∷◌, ◌++◌, none, some, bytes_eq, bytes_eq_iff,
  Bool-cases, Option-cases, inl, inr, append_assoc, append-nil,
}
use pcsuite_rs.Base.Wire.{Bytes, codes}
use pcsuite_rs.Base.Maybe.{◌>>=◌}
use pcsuite_rs.Base.Result.{Result}
use pcsuite_rs.Json.{get, as_str, Serde}
use pcsuite_rs.Share.{parse_action}
use pcsuite_rs.Share.Pull.{
  Event, text, ping, close, other, read_failed, timed_out, download_ended, Sent, said, pong, Pull,
  Turn, goes_on, returns, on_request, on_action, on_event, pull_loop,
}
use pcsuite_rs.Share.Pull.Outcome.{Turn-cases}

-- The answers to the events, in order: an action gets one ack with its number and its name, a ping its
-- pong, and nothing else gets any.
pub data Answers : List Event → List Sent → Type 0 where
  no_more : Answers [] []
  to_action :
      (t mid action extra more : Bytes) {es : List Event} {ms : List Sent}
      → parse_action t ≡ some (mid, action, extra)
      → Answers es ms
      → Answers (text t ∷ es) (said (codes "ack:" ++ (mid ++ (codes ":" ++ (action ++ more)))) ∷ ms)
  to_text :
      (t : Bytes) {es : List Event} {ms : List Sent}
      → parse_action t ≡ none
      → Answers es ms
      → Answers (text t ∷ es) ms
  to_ping :
      (b : Bytes) {es : List Event} {ms : List Sent}
      → Answers es ms
      → Answers (ping b ∷ es) (pong b ∷ ms)
  to_other : {es : List Event} {ms : List Sent} → Answers es ms → Answers (other ∷ es) ms
  to_end : {es : List Event} {ms : List Sent} → Answers es ms → Answers (download_ended ∷ es) ms

-- One event that the exchange survives: what it sent answers the event.
record Replied (e : Event) (p q : Pull) : Type 0 where
  new : List Sent
  wire : q.wire ≡ p.wire ++ new
  fits : {es : List Event} {ms : List Sent} → Answers es ms → Answers (e ∷ es) (new ++ ms)

goes_on-injective : {p q : Pull} → goes_on p ≡ goes_on q → p ≡ q
goes_on-injective e = cc

returns≢goes_on : {p q : Pull} {r : Result (List Bytes)} → returns p r ≢ goes_on q
returns≢goes_on e = cc

module _ (s : Serde) (link_up : ℕ → Bool) (download : Bytes → Result (List Bytes))
    (up : (n : ℕ) → link_up n ≡ true) where
  -- A turn that goes on has sent one text.
  abbrev Says : Bytes → Pull → Turn → Type 0
  Says m p t = (q : Pull) → t ≡ goes_on q → q.wire ≡ p.wire ++ (said m ∷ [])

  on_request-Says :
      (mid extra : Bytes) (p : Pull)
      → Says
          (codes "ack:" ++ (mid ++ codes ":sendRequest?{\"versions\":[1]}"))
          p
          (on_request s link_up download mid extra p)
  unfolding on_request
  on_request-Says mid extra p q h = elim (Option-cases (s.from_str extra)) [
    | inl e ↦ absurd (returns≢goes_on (rw (on_request, e) at h))
    | inr (info, e) ↦ elim (Option-cases (do v ← get info (codes "id"); as_str v)) [
      | inl e' ↦ absurd (returns≢goes_on (rw (on_request, e, e') at h))
      | inr (task_id, e') ↦
          sym (ap (λ r. r.wire) (goes_on-injective (rw (on_request, e, e', up) at h)))
    ]
  ]

  on_action-Replied :
      (t mid action extra : Bytes) (p q : Pull)
      → parse_action t ≡ some (mid, action, extra)
      → on_action s link_up download mid action extra p ≡ goes_on q
      → Replied (text t) p q
  unfolding on_action
  on_action-Replied t mid action extra p q a h =
      elim (Bool-cases (bytes_eq action (codes "versionNegotiation"))) [
        | inl v ↦
            let name = (bytes_eq_iff action (codes "versionNegotiation")).0 v in
            record {
              new = _;
              wire = sym (ap (λ r. r.wire) (goes_on-injective (rw (on_action, v, up) at h)));
              fits =
                  to_action t mid (codes "versionNegotiation") extra
                    (codes "?{\"version\":1,\"threadLimit\":5,\"device_avatar_uri\":\"\"}")
                    (a ∙ ap (λ n. some (mid, n, extra)) name);
            }
        | inr nv ↦ elim (Bool-cases (bytes_eq action (codes "sendRequest"))) [
          | inl r ↦
              let name = (bytes_eq_iff action (codes "sendRequest")).0 r in
              record {
                new = _;
                wire = on_request-Says mid extra p q (rw (on_action, nv, r) at h);
                fits =
                    to_action t mid (codes "sendRequest") extra (codes "?{\"versions\":[1]}")
                      (a ∙ ap (λ n. some (mid, n, extra)) name);
              }
          | inr nr ↦ record {
            new = said (codes "ack:" ++ (mid ++ (codes ":" ++ (action ++ [])))) ∷ [];
            wire =
                sym (ap (λ r. r.wire) (goes_on-injective (rw (on_action, nv, nr, up) at h)))
                ∙ ap (λ n. p.wire ++ (said (codes "ack:" ++ (mid ++ (codes ":" ++ n))) ∷ []))
                    (sym (append-nil action));
            fits = to_action t mid action extra [] a;
          }
        ]
      ]

  on_event-Replied :
      (e : Event) (p q : Pull) → on_event s link_up download e p ≡ goes_on q → Replied e p q
  unfolding on_event
  on_event-Replied (text t) p q h = elim (Option-cases (parse_action t)) [
    | inl a ↦ record {
      new = [];
      wire = sym (append-nil p.wire ∙ ap (λ r. r.wire) (goes_on-injective (rw (on_event, a) at h)));
      fits = to_text t a;
    }
    | inr ((mid, action, extra), a) ↦
        on_action-Replied t mid action extra p q a (rw (on_event, a) at h)
  ]
  on_event-Replied (ping b) p q h = record {
    new = pong b ∷ [];
    wire = sym (ap (λ r. r.wire) (goes_on-injective (rw up at h)));
    fits = to_ping b;
  }
  on_event-Replied close p q h = absurd (returns≢goes_on h)
  on_event-Replied other p q h = record {
    new = [];
    wire = sym (append-nil p.wire ∙ ap (λ r. r.wire) (goes_on-injective h));
    fits = to_other;
  }
  on_event-Replied read_failed p q h = absurd (returns≢goes_on h)
  on_event-Replied timed_out p q h = absurd (returns≢goes_on h)
  on_event-Replied download_ended p q h = elim (Option-cases p.pending_task) [
    | inl e ↦ record {
      new = [];
      wire = sym (append-nil p.wire ∙ ap (λ r. r.wire) (goes_on-injective (rw (on_event, e) at h)));
      fits = to_end;
    }
    | inr (t, e) ↦ absurd (returns≢goes_on (rw (on_event, e) at h))
  ]

  -- While every send succeeds and the exchange goes on, what it has sent are the answers to the events
  -- in their order: one ack for each action, with the action's number and name, and one pong for each
  -- ping.
  pub pull_loop-Answers :
      (es : List Event) (p q : Pull)
      → pull_loop s link_up download es p ≡ goes_on q
      → (ms : List Sent) × Answers es ms × (q.wire ≡ p.wire ++ ms)
  unfolding pull_loop
  pull_loop-Answers [] p q h =
      ([], no_more, sym (append-nil p.wire ∙ ap (λ r. r.wire) (goes_on-injective h)))
  pull_loop-Answers (e ∷ es) p q h = elim (Turn-cases (on_event s link_up download e p)) [
    | inl (r, at_) ↦
        let one = on_event-Replied e p r at_ in
        let (ms, a, w) = pull_loop-Answers es r q (rw (pull_loop, at_) at h) in
        (one.new ++ ms, one.fits a, w ∙ ap (λ x. x ++ ms) one.wire ∙ append_assoc p.wire one.new ms)
    | inr (r, res, at_) ↦ absurd (returns≢goes_on (rw (pull_loop, at_) at h))
  ]
