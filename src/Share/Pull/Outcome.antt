-- ===== src/Share/Pull/Outcome.antt =====
-- When the exchange over the WebSocket ends well: crates/pcsuite-core/src/share.rs.
use pcsuite_rs.Base.{
  ℕ, ◌≡◌, ◌≢◌, ◌⊎◌, refl, ap, ◌∙◌, subst, Bool, true, false, List, [], ◌∷◌, ◌++◌, Option, none,
  some, length, bytes_eq, Bool-cases, Option-cases, inl, inr, append_assoc,
}
use pcsuite_rs.Base.Wire.{Bytes, codes}
use pcsuite_rs.Base.Maybe.{◌>>=◌}
use pcsuite_rs.Base.Result.{Result, done, bail}
use pcsuite_rs.Json.{get, as_str, Serde}
use pcsuite_rs.FileTrans.Receiver.{started}
use pcsuite_rs.Share.{parse_action}
use pcsuite_rs.Share.Pull.{
  Event, text, ping, close, other, read_failed, timed_out, download_ended, Sent, said, pong, Pull,
  Turn, goes_on, returns, request_ack, negotiation_ack, blind_ack, final_status, try_send,
  send_or_fail, on_request, on_action, kept_result, keep_download, on_event, pull_loop, pull_batch,
  new_pull,
}
use Prim.Native.String.{String}

-- A task of the phone was acknowledged and reported, and the accept loop was told.
pub record IsAnnounced (p : Pull) : Type 0 where
  pub told : p.committed ≡ true
  pub mid : Bytes
  pub before : List Sent
  pub after : List Sent
  pub acked : p.wire ≡ before ++ (said (request_ack mid) ∷ after)

sent-IsAnnounced :
    (p : Pull) (m : Sent) → IsAnnounced p → IsAnnounced (record p { wire = p.wire ++ (m ∷ []) })
sent-IsAnnounced p m a = record {
  told = a.told;
  mid = a.mid;
  before = a.before;
  after = a.after ++ (m ∷ []);
  acked =
      ap (λ w. w ++ (m ∷ [])) a.acked
      ∙ append_assoc a.before (said (request_ack a.mid) ∷ a.after) (m ∷ []);
}

none≢some : {t : Bytes} → none ≢ some t
none≢some e = cc

bail≢done : {m : String} {a : List Bytes} → bail m ≢ done a
bail≢done e = cc

pub Turn-cases :
    (t : Turn)
    → ((p : Pull) × (t ≡ goes_on p)) ⊎ ((p : Pull) × (r : Result (List Bytes)) × (t ≡ returns p r))
Turn-cases (goes_on p) = inl (p, refl)
Turn-cases (returns p r) = inr (p, r, refl)

returned : {p q : Pull} {a b : Result (List Bytes)} → returns p a ≡ returns q b → a ≡ b
returned e = cc

-- A running download is that of an announced task.
abbrev IsOwned : Pull → Type 0
IsOwned p = (t : Bytes) → p.pending_task ≡ some t → IsAnnounced p

module _ (s : Serde) (link_up : ℕ → Bool) (download : Bytes → Result (List Bytes)) where
  abbrev IsSuccess : Pull → Result (List Bytes) → Type 0
  IsSuccess p r =
      (saved : List Bytes)
      → r ≡ done saved
      → (task_id : Bytes) × (download task_id ≡ done saved) × IsAnnounced p

  abbrev IsGood : Turn → Type 0
  IsGood (goes_on p) = IsOwned p
  IsGood (returns p r) = IsSuccess p r

  no-IsSuccess : (p : Pull) (m : String) → IsSuccess p (bail m)
  no-IsSuccess p m saved e = absurd (bail≢done e)

  try_send-IsOwned : (m : Sent) (p : Pull) → IsOwned p → IsOwned (try_send s link_up download m p)
  try_send-IsOwned m p h = elim (Bool-cases (link_up (length p.wire))) [
    | inl up ↦ rw up (λ t e. sent-IsAnnounced p m (h t e))
    | inr down ↦ rw down h
  ]

  send_or_fail-IsGood :
      (m : Sent) (p : Pull) → IsOwned p → IsGood (send_or_fail s link_up download m p)
  send_or_fail-IsGood m p h = elim (Bool-cases (link_up (length p.wire))) [
    | inl up ↦ rw up (λ t e. sent-IsAnnounced p m (h t e))
    | inr down ↦ rw down (no-IsSuccess p "send ack")
  ]

  on_request-IsGood :
      (mid extra : Bytes) (p : Pull)
      → IsOwned p
      → IsGood (on_request s link_up download mid extra p)
  unfolding on_request
  on_request-IsGood mid extra p h = elim (Option-cases (s.from_str extra)) [
    | inl e ↦ rw (on_request, e) (no-IsSuccess p "sendRequest payload was not JSON")
    | inr (info, e) ↦ elim (Option-cases (do v ← get info (codes "id"); as_str v)) [
      | inl e' ↦ rw (on_request, e, e') (no-IsSuccess p "sendRequest carried no task id")
      | inr (task_id, e') ↦
          let q : Pull = record p { reports = p.reports ++ (started [] ∷ []) } in
          elim (Bool-cases (link_up (length p.wire))) [
            | inl up ↦
                rw (on_request, e, e', up)
                  (λ t x. record {
                    told = refl;
                    mid = mid;
                    before = p.wire;
                    after = [];
                    acked = refl;
                  })
            | inr down ↦ rw (on_request, e, e', down) (no-IsSuccess q "send ack")
          ]
    ]
  ]

  on_action-IsGood :
      (mid action extra : Bytes) (p : Pull)
      → IsOwned p
      → IsGood (on_action s link_up download mid action extra p)
  unfolding on_action
  on_action-IsGood mid action extra p h =
      elim (Bool-cases (bytes_eq action (codes "versionNegotiation"))) [
        | inl v ↦ rw (on_action, v) (send_or_fail-IsGood (said (negotiation_ack mid)) p h)
        | inr nv ↦ elim (Bool-cases (bytes_eq action (codes "sendRequest"))) [
          | inl r ↦ rw (on_action, nv, r) (on_request-IsGood mid extra p h)
          | inr nr ↦ rw (on_action, nv, nr) (try_send-IsOwned (said (blind_ack mid action)) p h)
        ]
      ]

  keep_download-IsGood :
      (p : Pull) (m : String) → IsOwned p → IsGood (keep_download s link_up download p (bail m))
  keep_download-IsGood p m h = from p.pending_task refl
    where
      from :
          (o : Option Bytes)
          → p.pending_task ≡ o
          → IsSuccess p (kept_result s link_up download o (bail m))
      from none e = no-IsSuccess p m
      from (some t) e = λ saved d. (t, d, h t e)

  on_event-IsGood : (e : Event) (p : Pull) → IsOwned p → IsGood (on_event s link_up download e p)
  unfolding on_event
  on_event-IsGood (text t) p h = elim (Option-cases (parse_action t)) [
    | inl e ↦ rw (on_event, e) h
    | inr ((mid, action, extra), e) ↦ rw (on_event, e) (on_action-IsGood mid action extra p h)
  ]
  on_event-IsGood (ping b) p h = try_send-IsOwned (pong b) p h
  on_event-IsGood close p h = keep_download-IsGood p _ h
  on_event-IsGood other p h = h
  on_event-IsGood read_failed p h = keep_download-IsGood p _ h
  on_event-IsGood timed_out p h = no-IsSuccess p _
  on_event-IsGood download_ended p h = elim (Option-cases p.pending_task) [
    | inl e ↦ rw (on_event, e) h
    | inr (t, e) ↦
        let m = said (final_status t (download t)) in
        let a : IsAnnounced (try_send s link_up download m p) =
          try_send-IsOwned m p h t (try_keeps m p ∙ e) in
        rw (on_event, e)
          (λ saved d. (
            t,
            d,
            record {
              told = a.told;
              mid = a.mid;
              before = a.before;
              after = a.after;
              acked = a.acked;
            },
          ))
  ]
    where
      try_keeps :
          (m : Sent) (q : Pull) → (try_send s link_up download m q).pending_task ≡ q.pending_task
      try_keeps m q = elim (Bool-cases (link_up (length q.wire))) [
        | inl up ↦ rw up refl
        | inr down ↦ rw down refl
      ]

  pull_loop-IsGood :
      (es : List Event) (p : Pull) → IsOwned p → IsGood (pull_loop s link_up download es p)
  unfolding pull_loop
  pull_loop-IsGood [] p h = h
  pull_loop-IsGood (e ∷ es) p h =
      let one = on_event-IsGood e p h in
      elim (Turn-cases (on_event s link_up download e p)) [
        | inl (q, at) ↦ rw (pull_loop, at) (pull_loop-IsGood es q (subst IsGood at one))
        | inr (q, r, at) ↦ rw (pull_loop, at) (subst IsGood at one)
      ]

  -- An exchange that returns saved files has acknowledged a task of the phone by the ack with a body,
  -- has told the accept loop, and the files are those that the download of a task gave: whatever the
  -- phone sends, whenever the socket fails, and whatever the sends do.
  pub pull_batch-IsSuccess :
      (can_mkdir : Bool) (es : List Event) (p : Pull) (saved : List Bytes)
      → pull_batch s link_up download can_mkdir es ≡ returns p (done saved)
      → (task_id : Bytes) × (download task_id ≡ done saved) × IsAnnounced p
  unfolding pull_batch
  pull_batch-IsSuccess false es p saved e = absurd (bail≢done (returned e))
  pull_batch-IsSuccess true es p saved e =
      subst IsGood e (pull_loop-IsGood es new_pull (λ t x. absurd (none≢some x))) saved refl
