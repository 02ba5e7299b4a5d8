-- ===== src/Clipboard/Watch/Echo.antt =====
-- A text that came from the phone is not sent back to it while its mark counts:
-- crates/pcsuite-core/src/clipboard.rs.
use pcsuite_rs.Base.{
  ℕ, ◌-◌, ◌<◌, ◌≤◌, ◌≡◌, refl, true, false, Bool, List, [], ◌∷◌, ◌++◌, Option, some, is_empty,
  arith, lt→ltb,
}
use pcsuite_rs.Base.Wire.{Bytes}
use pcsuite_rs.Crypto.{Primitives}
use pcsuite_rs.Json.{Serde}
use pcsuite_rs.Clip.{ImageRef, clip_text_from_json}
use pcsuite_rs.Clipboard.{mark, World, set_text, echo_window, recently_synced, is_some_eq}
use pcsuite_rs.Clipboard.Frames.{receive_text, on_clip_frame}
use pcsuite_rs.Clipboard.Watch.{Observation, watch_text, watch_round, finish_fetch}
use pcsuite_rs.Clipboard.Watch.Kept.{
  IsMarked, first_mark, arrive-IsMarked, watch-IsMarked, finish_fetch-recent,
}

-- A clipboard frame arrives with its text, at an instant; the watcher looks at a clipboard that holds
-- anything; the fetch of an image ends.
pub data Event : Type 0 where
  arrives : Bytes → ℕ → Event
  looks : Observation → Event
  fetch_ends : ImageRef → Option Bytes → Bool → Option Bytes → Event

-- The events come at instants from `since` to `now`.
abbrev pub AreWithin : ℕ → ℕ → List Event → Type 0
AreWithin since now [] = Unit
AreWithin since now (arrives plain at ∷ es) = (since ≤ at) × (at ≤ now) × AreWithin since now es
AreWithin since now (looks o ∷ es) = (since ≤ o.now) × (o.now ≤ now) × AreWithin since now es
AreWithin since now (fetch_ends i f ok sig ∷ es) = AreWithin since now es

text_nonempty :
    (s : Serde) (plain t : Bytes) → clip_text_from_json s plain ≡ some t → is_empty t ≡ false
unfolding clip_text_from_json
text_nonempty s plain t e = ground arith

module _ (p : Primitives) (s : Serde) (pc_id device_name temp_dir : Bytes) where
  abbrev pub happens : Event → World → World
  happens (arrives plain at) w = on_clip_frame s plain at w
  happens (looks o) w = watch_round p s pc_id device_name temp_dir o w
  happens (fetch_ends i fetched was_set sig) w = finish_fetch i fetched was_set sig w

  abbrev pub run : List Event → World → World
  run [] w = w
  run (e ∷ es) w = run es (happens e w)

  run-IsMarked :
      (t : Bytes) (since now : ℕ) (es : List Event) (w : World)
      → now - since < echo_window
      → AreWithin since now es
      → IsMarked t since now w.shared.recent
      → IsMarked t since now (run es w).shared.recent
  run-IsMarked t since now [] w window within h = h
  run-IsMarked t since now (arrives plain at ∷ es) w window (lo, hi, within) h =
      run-IsMarked t since now es (on_clip_frame s plain at w) window within
        (arrive-IsMarked t since now window s plain at w lo hi h)
  run-IsMarked t since now (looks o ∷ es) w window (lo, hi, within) h =
      run-IsMarked t since now es (watch_round p s pc_id device_name temp_dir o w) window within
        (watch-IsMarked t since now window s p pc_id device_name temp_dir o w lo hi h)
  run-IsMarked t since now (fetch_ends i f ok sig ∷ es) w window within h =
      run-IsMarked t since now es (finish_fetch i f ok sig w) window within
        (rw (finish_fetch-recent i f ok sig w) h)

  look-IsMarked :
      (t : Bytes) (since : ℕ) (o : Observation) (w : World)
      → is_empty t ≡ false
      → o.now - since < echo_window
      → o.text ≡ some t
      → IsMarked t since o.now w.shared.recent
      → watch_round p s pc_id device_name temp_dir o w ≡ w
  unfolding watch_round watch_text recently_synced
  look-IsMarked t since o w n window e h =
      let counts : recently_synced t o.now w.shared ≡ true =
        rw (recently_synced, h.found)
          (lt→ltb (o.now - h.at) echo_window (omega (arith, window, h.low, h.high))) in
      rw (watch_round, e, n, watch_text, counts) ground arith

  receive-IsMarked :
      (plain t : Bytes) (since now : ℕ) (w : World)
      → clip_text_from_json s plain ≡ some t
      → w.shared.apply_incoming ≡ true
      → is_some_eq w.shared.last_text t ≡ false
      → recently_synced t since w.shared ≡ false
      → since ≤ now
      → now - since < echo_window
      → ((on_clip_frame s plain since w).effects ≡ w.effects ++ (set_text t ∷ []))
        × IsMarked t since now (on_clip_frame s plain since w).shared.recent
  unfolding on_clip_frame receive_text mark
  receive-IsMarked plain t since now w e applies other fresh order window =
      rw (on_clip_frame, e, receive_text, fresh, other, applies)
        (refl, first_mark t since now window (record w.shared { last_text = some t }) order)

  -- A text of the phone that is not the last one, not just synchronised, and to be applied, is put on the
  -- clipboard when its frame arrives at an instant. While less than the six seconds of the echo window
  -- have passed since then, the watcher that sees that text on the clipboard sends nothing and changes
  -- nothing, whatever happened in between: clipboard frames of any content, looks at a clipboard that
  -- holds anything, such as the text that stood there before, and fetches of images that end.
  pub watch_round-on_clip_frame :
      (plain t : Bytes) (since : ℕ) (w : World) (es : List Event) (o : Observation)
      → clip_text_from_json s plain ≡ some t
      → w.shared.apply_incoming ≡ true
      → is_some_eq w.shared.last_text t ≡ false
      → recently_synced t since w.shared ≡ false
      → since ≤ o.now
      → o.now - since < echo_window
      → AreWithin since o.now es
      → o.text ≡ some t
      → let there = on_clip_frame s plain since w in
        let later = run es there in
        (there.effects ≡ w.effects ++ (set_text t ∷ []))
        × (watch_round p s pc_id device_name temp_dir o later ≡ later)
  watch_round-on_clip_frame plain t since w es o e applies other fresh order window within seen =
      let (applied, marked) =
        receive-IsMarked plain t since o.now w e applies other fresh order window in
      (
        applied,
        look-IsMarked t since o (run es (on_clip_frame s plain since w)) (text_nonempty s plain t e)
            window seen
            (run-IsMarked t since o.now es (on_clip_frame s plain since w) window within marked),
      )
