-- ===== src/Clipboard/Watch/Kept.antt =====
-- What the handlers do to the mark of a text:
-- crates/pcsuite-core/src/clipboard.rs.
use pcsuite_rs.Base.{
  ℕ, ◌-◌, ◌<◌, ◌≤◌, ◌≡◌, refl, true, false, not, ◌&&◌, ◌||◌, Bool, List, [], ◌∷◌, Option, none,
  some, is_empty, bytes_eq, bytes_eq_refl, arith, Bool-cases, Option-cases, inl, inr,
}
use pcsuite_rs.Base.Wire.{Bytes}
use pcsuite_rs.Base.Maybe.{or_else}
use pcsuite_rs.Crypto.{Primitives, Crypted, good, bad}
use pcsuite_rs.Json.{Serde}
use pcsuite_rs.Clip.{ImageRef, clip_text_from_json, clip_image_from_json}
use pcsuite_rs.Clipboard.{
  World, Shared, echo_window, mark, recently_synced, recent_at, without, is_some, is_some_eq,
}
use pcsuite_rs.Clipboard.Frames.{receive_text, receive_image, on_clip_frame, send_frame}
use pcsuite_rs.Clipboard.Watch.{Observation, watch_text, watch_image, watch_round, finish_fetch}
use pcsuite_rs.Clipboard.Watch.Marks.{retained, without_other}

-- The text has a mark of an instant from `since` to `now`.
pub record IsMarked (t : Bytes) (since now : ℕ) (recent : List (Bytes × ℕ)) : Type 0 where
  pub at : ℕ
  pub found : recent_at t recent ≡ some at
  pub low : since ≤ at
  pub high : at ≤ now

module _ (t : Bytes) (since now : ℕ) (window : now - since < echo_window) where
  -- A mark of any text at such an instant leaves or renews that of `t`.
  mark-IsMarked :
      (u : Bytes) (at : ℕ) (sh : Shared)
      → since ≤ at
      → at ≤ now
      → IsMarked t since now sh.recent
      → IsMarked t since now (mark u at sh).recent
  unfolding mark
  mark-IsMarked u at sh lo hi h = elim (Bool-cases (bytes_eq t u)) [
    | inl same ↦ record {
      at = at;
      found =
          retained t at at ((u, at) ∷ without u sh.recent) (omega (arith, window)) (rw same refl);
      low = lo;
      high = hi;
    }
    | inr other ↦ record {
      at = h.at;
      found =
          retained t at h.at ((u, at) ∷ without u sh.recent) (omega (arith, window, h.low, hi))
            (rw (other, without_other t u sh.recent other) h.found);
      low = h.low;
      high = h.high;
    }
  ]

  pub first_mark : (sh : Shared) → since ≤ now → IsMarked t since now (mark t since sh).recent
  unfolding mark
  first_mark sh lo = record {
    at = since;
    found =
        retained t since since ((t, since) ∷ without t sh.recent) (omega (arith, window))
          (rw (bytes_eq_refl t) refl);
    low = omega arith;
    high = lo;
  }

  module _ (s : Serde) where
    text-IsMarked :
        (u : Bytes) (at : ℕ) (w : World)
        → since ≤ at
        → at ≤ now
        → IsMarked t since now w.shared.recent
        → IsMarked t since now (receive_text s u at w).shared.recent
    unfolding receive_text
    text-IsMarked u at w lo hi h =
        elim (Bool-cases (
          not w.shared.apply_incoming
          || is_some_eq w.shared.last_text u
          || recently_synced u at w.shared)) [
            | inl skip ↦ rw (receive_text, skip) h
            | inr apply ↦
                rw (receive_text, apply)
                  (mark-IsMarked u at (record w.shared { last_text = some u }) lo hi h)
          ]

    image-IsMarked :
        (i : ImageRef) (w : World)
        → IsMarked t since now w.shared.recent
        → IsMarked t since now (receive_image s i w).shared.recent
    unfolding receive_image
    image-IsMarked i w h =
        elim (Bool-cases
          (not w.shared.apply_incoming || is_some_eq w.shared.last_image_ref i.path)) [
            | inl skip ↦ rw (receive_image, skip) h
            | inr apply ↦ rw (receive_image, apply) h
          ]

    pub arrive-IsMarked :
        (plain : Bytes) (at : ℕ) (w : World)
        → since ≤ at
        → at ≤ now
        → IsMarked t since now w.shared.recent
        → IsMarked t since now (on_clip_frame s plain at w).shared.recent
    unfolding on_clip_frame
    arrive-IsMarked plain at w lo hi h = elim (Option-cases (clip_text_from_json s plain)) [
      | inr (u, e) ↦ rw (on_clip_frame, e) (text-IsMarked u at w lo hi h)
      | inl none_text ↦ elim (Option-cases (clip_image_from_json s plain)) [
        | inr (i, e) ↦ rw (on_clip_frame, none_text, e) (image-IsMarked i w h)
        | inl none_image ↦ rw (on_clip_frame, none_text, none_image) h
      ]
    ]

    module _ (p : Primitives) (pc_id device_name temp_dir : Bytes) where
      send_recent :
          (f : Crypted Bytes) (w : World) → (send_frame f w).shared.recent ≡ w.shared.recent
      send_recent (bad e) w = refl
      send_recent (good frame) w = elim (Option-cases w.shared.outgoing) [
        | inl off ↦ rw off refl
        | inr (conn, on) ↦ rw on refl
      ]

      watch_text-IsMarked :
          (cur : Bytes) (o : Observation) (w : World)
          → since ≤ o.now
          → o.now ≤ now
          → IsMarked t since now w.shared.recent
          → IsMarked t since now (watch_text p s pc_id device_name temp_dir cur o w).shared.recent
      unfolding watch_text
      watch_text-IsMarked cur o w lo hi h =
          elim (Bool-cases (
            not (is_some w.shared.outgoing)
            || is_some_eq w.shared.last_text cur
            || recently_synced cur o.now w.shared)) [
              | inl skip ↦ rw (watch_text, skip) h
              | inr send ↦
                  rw (watch_text, send, send_recent)
                    (mark-IsMarked cur o.now (record w.shared { last_text = some cur }) lo hi h)
            ]

      watch_image-recent :
          (sig : Bytes) (o : Observation) (w : World)
          → (watch_image p s pc_id device_name temp_dir sig o w).shared.recent ≡ w.shared.recent
      unfolding watch_image
      watch_image-recent sig o w =
          elim (Bool-cases
            (not (is_some w.shared.outgoing && not (is_some_eq w.shared.last_image_sig sig)))) [
              | inl skip ↦ rw (watch_image, skip) refl
              | inr go ↦ elim (Option-cases o.image) [
                | inl e ↦ rw (watch_image, go, e) refl
                | inr (bytes, e) ↦ elim (Bool-cases o.staged) [
                  | inr no_ ↦ rw (watch_image, go, e, no_) refl
                  | inl yes_ ↦ rw (watch_image, go, e, yes_, send_recent) refl
                ]
              ]
            ]

      pub watch-IsMarked :
          (o : Observation) (w : World)
          → since ≤ o.now
          → o.now ≤ now
          → IsMarked t since now w.shared.recent
          → IsMarked t since now (watch_round p s pc_id device_name temp_dir o w).shared.recent
      unfolding watch_round
      watch-IsMarked o w lo hi h = elim (Bool-cases (not (is_empty (or_else o.text [])))) [
        | inl text ↦ rw (watch_round, text) (watch_text-IsMarked (or_else o.text []) o w lo hi h)
        | inr no_text ↦ elim (Option-cases o.image_sig) [
          | inl e ↦ rw (watch_round, no_text, e) h
          | inr (sig, e) ↦ rw (watch_round, no_text, e, watch_image-recent sig o w) h
        ]
      ]

pub finish_fetch-recent :
    (i : ImageRef) (fetched : Option Bytes) (was_set : Bool) (sig : Option Bytes) (w : World)
    → (finish_fetch i fetched was_set sig w).shared.recent ≡ w.shared.recent
unfolding finish_fetch
finish_fetch-recent i none was_set sig w = refl
finish_fetch-recent i (some bytes) false sig w = refl
finish_fetch-recent i (some bytes) true none w = refl
finish_fetch-recent i (some bytes) true (some now_there) w = refl
