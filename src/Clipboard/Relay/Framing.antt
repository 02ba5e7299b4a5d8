-- ===== src/Clipboard/Relay/Framing.antt =====
-- The read loop of a relay connection against the frames that the phone wrote, however they are cut:
-- crates/pcsuite-core/src/clipboard.rs.
use native.Mathlib.Decide.{dec_lt}
use pcsuite_rs.Base.{
  ℕ, zero, suc, ◌+◌, ◌≤◌, ◌<◌, ◌≡◌, refl, sym, ap, ◌∙◌, List, [], ◌∷◌, ◌++◌, length, take, drop,
  All, get_or, length-append, length-drop, append-nil, append_assoc, drop-append, take-append,
  take-append_le, drop-append_le, take-append-drop, drop_cons, arith,
}
use pcsuite_rs.Base.Wire.{Bytes}
use pcsuite_rs.Base.Outcome.{ok}
use pcsuite_rs.Base.Streams.{Read, got, arrivals, concat, IsNonempty}
use pcsuite_rs.Ruying.{RuyingFrame, build, frame, need_more, parse}
use pcsuite_rs.Ruying.RoundTrip.{IsWellFormed, length-build, parse-build}
use pcsuite_rs.Ruying.Partial.{parse-prefix}
use pcsuite_rs.Clipboard.Relay.{drain_loop, drain, read_loop}

-- What the phone writes for frames in order, and what they do to the state in that order.
abbrev pub wire : List RuyingFrame → Bytes
wire [] = []
wire (f ∷ fs) = build f ++ wire fs

abbrev pub handle_all {ℓ} : {S : Type ℓ} → (RuyingFrame → S → S) → List RuyingFrame → S → S
handle_all handle [] st = st
handle_all handle (f ∷ fs) st = handle_all handle fs (handle f st)

-- The bytes begin a well-formed frame and do not end it.
pub record IsPart (part : Bytes) : Type 0 where
  pub whole : RuyingFrame
  pub whole-IsWellFormed : IsWellFormed whole
  pub next : ℕ
  pub missing : Bytes
  pub cut : build whole ≡ part ++ (next ∷ missing)

-- A list cut at two places.
cut_front :
    (buf later head tail : Bytes)
    → buf ++ later ≡ head ++ tail
    → length head ≤ length buf
    → (buf ≡ head ++ drop (length head) buf) × (drop (length head) buf ++ later ≡ tail)
cut_front buf later head tail e h =
    let front : take (length head) buf ≡ head =
      sym (take-append_le (length head) buf later h)
      ∙ ap (take (length head)) e
      ∙ take-append (length head) head tail refl in
    (
      sym (take-append-drop (length head) buf) ∙ ap (λ t. t ++ drop (length head) buf) front,
      sym (drop-append_le (length head) buf later h)
          ∙ ap (drop (length head)) e
          ∙ drop-append (length head) head tail refl,
    )

cut_back :
    (buf later head tail : Bytes)
    → buf ++ later ≡ head ++ tail
    → length buf < length head
    → (x : ℕ) × (rest : Bytes) × (head ≡ buf ++ (x ∷ rest))
cut_back buf later head tail e h =
    let front : take (length buf) head ≡ buf =
      sym (take-append_le (length buf) head tail (omega (arith, h)))
      ∙ ap (take (length buf)) (sym e)
      ∙ take-append (length buf) buf later refl in
    (
      get_or head (length buf) 0,
      drop (suc (length buf)) head,
      sym (take-append-drop (length buf) head) ∙ rw (front, drop_cons (length buf) head 0 h) refl,
    )

shorter_later :
    (buf later part : Bytes) → buf ++ later ≡ part → length buf + length later ≡ length part
shorter_later buf later part e = omega (arith, length-append buf later, ap length e)

module _ {ℓ} {S : Type ℓ} (handle : RuyingFrame → S → S) where
  record Drained (fuel : ℕ) (buf later part : Bytes) (fs : List RuyingFrame) (st : S) : Type ℓ where
    rest : Bytes
    back : List RuyingFrame
    st' : S
    run : drain_loop handle fuel buf st ≡ ok (rest, st')
    state : handle_all handle back st' ≡ handle_all handle fs st
    left : rest ++ later ≡ wire back ++ part
    over : later ≡ [] → back ≡ []
    sound : All IsWellFormed back

  stops :
      (fuel n : ℕ) (buf : Bytes) (st : S)
      → parse buf ≡ ok (need_more n)
      → drain_loop handle (suc fuel) buf st ≡ ok (buf, st)
  unfolding drain_loop
  stops fuel n buf st e = rw (drain_loop, e) refl

  takes :
      (fuel n : ℕ) (f : RuyingFrame) (buf : Bytes) (st : S)
      → parse buf ≡ ok (frame f n)
      → drain_loop handle (suc fuel) buf st ≡ drain_loop handle fuel (drop n buf) (handle f st)
  unfolding drain_loop
  takes fuel n f buf st e = rw (drain_loop, e) refl

  drains :
      (fuel : ℕ) (buf later part : Bytes) (fs : List RuyingFrame) (st : S)
      → All IsWellFormed fs
      → IsPart part
      → buf ++ later ≡ wire fs ++ part
      → length buf < fuel
      → Drained fuel buf later part fs st
  drains zero buf later part fs st w p e h = absurd (omega arith)
  drains (suc fuel) buf later part [] st w p e h =
      let (x, rest, shape) =
        cut_back buf (later ++ (p.next ∷ p.missing)) (build p.whole) []
          (sym (append_assoc buf later _)
            ∙ ap (λ t. t ++ (p.next ∷ p.missing)) e
            ∙ sym p.cut
            ∙ sym (append-nil _))
          (omega (
            arith,
            shorter_later buf later part e,
            ap length p.cut,
            length-append part (p.next ∷ p.missing),
          )) in
      let (n, more, _, _) = parse-prefix p.whole buf rest x p.whole-IsWellFormed shape in
      record {
        rest = buf;
        back = [];
        st' = st;
        run = stops fuel n buf st more;
        state = refl;
        left = e;
        over = λ _. refl;
        sound = tt;
      }
  drains (suc fuel) buf later part (f ∷ fs) st (w, ws) p e h =
      let e' : buf ++ later ≡ build f ++ (wire fs ++ part) =
        e ∙ append_assoc (build f) (wire fs) part in
      elim (dec_lt (length buf) (length (build f))) [
        | yes short ↦
            let (x, rest, shape) = cut_back buf later (build f) (wire fs ++ part) e' short in
            let (n, more, _, _) = parse-prefix f buf rest x w shape in
            record {
              rest = buf;
              back = f ∷ fs;
              st' = st;
              run = stops fuel n buf st more;
              state = refl;
              left = e;
              over = λ none_left. absurd (
                  omega (
                    arith,
                    short,
                    length-append buf later,
                    ap length e',
                    length-append (build f) (wire fs ++ part),
                    ap length none_left,
                  ));
              sound = (w, ws);
            }
        | no long ↦
            let (front, after) =
              cut_front buf later (build f) (wire fs ++ part) e' (omega (arith, long)) in
            let read : parse buf ≡ ok (frame f (length (build f))) =
              ap parse front ∙ parse-build f w (drop (length (build f)) buf) in
            let d =
              drains fuel (drop (length (build f)) buf) later part fs (handle f st) ws p after
                (omega (arith, long, h, length-drop (length (build f)) buf, length-build f w)) in
            record {
              rest = d.rest;
              back = d.back;
              st' = d.st';
              run = takes fuel (length (build f)) f buf st read ∙ d.run;
              state = d.state;
              left = d.left;
              over = d.over;
              sound = d.sound;
            }
      ]

  read_step :
      (c buf rest : Bytes) (reads : List Read) (st st' : S)
      → IsNonempty c
      → drain handle (buf ++ c) st ≡ ok (rest, st')
      → read_loop handle (got c ∷ reads) buf st ≡ read_loop handle reads rest st'
  unfolding read_loop
  read_step c buf rest reads st st' n e = rw (n, e) refl

  reads_on :
      (chunks : List Bytes) (reads : List Read) (buf part : Bytes) (fs : List RuyingFrame) (st : S)
      → All IsNonempty chunks
      → All IsWellFormed fs
      → IsPart part
      → buf ++ concat chunks ≡ wire fs ++ part
      → (concat chunks ≡ [] → fs ≡ [])
      → read_loop handle (arrivals chunks reads) buf st
        ≡ read_loop handle reads part (handle_all handle fs st)
  reads_on [] reads buf part fs st n w p e over =
      let none_left = over refl in
      let same : buf ≡ part = sym (append-nil buf) ∙ e ∙ ap (λ t. wire t ++ part) none_left in
      rw (same, none_left) refl
  reads_on (c ∷ chunks) reads buf part fs st (n, ns) w p e over =
      let d =
        drains (suc (length (buf ++ c))) (buf ++ c) (concat chunks) part fs st w p
          (append_assoc buf c (concat chunks) ∙ e) (omega arith) in
      read_step c buf d.rest (arrivals chunks reads) st d.st' n (unfold drain in d.run)
      ∙ reads_on chunks reads d.rest part d.back d.st' ns d.sound p d.left d.over
      ∙ ap (read_loop handle reads part) d.state

  wire_nil :
      (fs : List RuyingFrame) (part : Bytes) → All IsWellFormed fs → wire fs ++ part ≡ [] → fs ≡ []
  wire_nil [] part w e = refl
  wire_nil (f ∷ fs) part (w, ws) e = absurd (
      omega (
        arith,
        length-build f w,
        length-append (build f) (wire fs),
        length-append (wire fs ++ []) part,
        length-append (build f ++ wire fs) part,
        ap length e,
      ))

  -- Frames that arrive cut anywhere, a part of the next one perhaps behind them, are handled one by one
  -- in order, each once and whole, and the part stays in the buffer for the reads that follow.
  pub read_loop-handle_all :
      (fs : List RuyingFrame) (part : Bytes) (chunks : List Bytes) (reads : List Read) (st : S)
      → All IsWellFormed fs
      → IsPart part
      → All IsNonempty chunks
      → concat chunks ≡ wire fs ++ part
      → read_loop handle (arrivals chunks reads) [] st
        ≡ read_loop handle reads part (handle_all handle fs st)
  read_loop-handle_all fs part chunks reads st w p n e =
      reads_on chunks reads [] part fs st n w p e (λ z. wire_nil fs part w (sym e ∙ z))
