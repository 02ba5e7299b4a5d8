-- ===== src/Share/Connect/Framing.antt =====
-- The connect frame is read from any cut of the stream: crates/pcsuite-core/src/share.rs.
use native.Mathlib.Decide.{dec_lt}
use pcsuite_rs.Base.{
  ◌+◌, ◌^◌, ◌<◌, ◌≤◌, ◌≡◌, refl, sym, ap, ◌∙◌, List, [], ◌∷◌, ◌++◌, none, some, length, take,
  le→ltb_false, take-append, append_assoc, length-append, arith, All, take-append_le, drop,
  take-append-drop,
}
use pcsuite_rs.Base.Wire.{Bytes}
use pcsuite_rs.Base.Result.{done}
use pcsuite_rs.Base.Streams.{Read, got, failed, IsNonempty, concat, arrivals}
use pcsuite_rs.Frames.Payload.{
  encode, decode_strict, decoded, need_more, decode_strict-encode, decode_strict-prefix,
  length-encode,
}
use pcsuite_rs.Share.{max_frame_buf}
use pcsuite_rs.Share.Connect.{try_frame, read_frame_loop, read_first_frame}

module _ (text : Bytes) (small : 14 + length text ≤ 2 ^ 20) where
  -- A buffer that lacks a part of the frame is read on.
  try_frame-short :
      (buf more extra : Bytes)
      → buf ++ more ≡ encode text ++ extra
      → length buf < length (encode text)
      → try_frame buf ≡ none
  unfolding try_frame
  try_frame-short buf more extra e lt =
      let n = length-encode text in
      let cut : buf ≡ take (length buf) (encode text) =
        sym (take-append (length buf) buf more refl)
        ∙ ap (take (length buf)) e
        ∙ take-append_le (length buf) (encode text) extra (omega (arith, lt)) in
      let d : decode_strict buf ≡ need_more =
        ap decode_strict cut ∙ decode_strict-prefix text (length buf) (omega (arith, small)) lt in
      rw (try_frame, d, le→ltb_false max_frame_buf (length buf) (omega (arith, small, lt, n)))

  -- A buffer that holds the frame gives its text.
  try_frame-full :
      (buf more extra : Bytes)
      → buf ++ more ≡ encode text ++ extra
      → length (encode text) ≤ length buf
      → try_frame buf ≡ some (done text)
  unfolding try_frame
  try_frame-full buf more extra e le =
      let n = length (encode text) in
      let front : take n buf ≡ encode text =
        sym (take-append_le n buf more le)
        ∙ ap (take n) e
        ∙ take-append n (encode text) extra refl in
      let shape : buf ≡ encode text ++ drop n buf =
        sym (take-append-drop n buf) ∙ ap (λ t. t ++ drop n buf) front in
      let d : decode_strict buf ≡ decoded text n =
        ap decode_strict shape ∙ decode_strict-encode text (drop n buf) (omega (arith, small)) in
      rw (try_frame, d) refl

  loop-full :
      (buf : Bytes) (reads : List Read)
      → try_frame buf ≡ some (done text)
      → read_frame_loop buf reads ≡ done text
  unfolding read_frame_loop
  loop-full buf [] h = rw h refl
  loop-full buf (failed ∷ reads) h = rw h refl
  loop-full buf (got c ∷ reads) h = rw h refl

  loop-frame :
      (buf : Bytes) (cs : List Bytes) (later : List Read) (extra : Bytes)
      → All IsNonempty cs
      → buf ++ concat cs ≡ encode text ++ extra
      → read_frame_loop buf (arrivals cs later) ≡ done text
  unfolding read_frame_loop
  loop-frame buf [] later extra ok e =
      let n = ap length e in
      let le : length (encode text) ≤ length buf =
        omega (arith, n, length-append buf [], length-append (encode text) extra) in
      loop-full buf later (try_frame-full buf [] extra e le)
  loop-frame buf (c ∷ cs) later extra (c_ok, ok) e =
      elim (dec_lt (length buf) (length (encode text))) [
        | yes short ↦
            let next : read_frame_loop (buf ++ c) (arrivals cs later) ≡ done text =
              loop-frame (buf ++ c) cs later extra ok (append_assoc buf c (concat cs) ∙ e) in
            rw (try_frame-short buf (c ++ concat cs) extra e short, c_ok, next) refl
        | no long ↦
            loop-full buf (got c ∷ arrivals cs later)
              (try_frame-full buf (c ++ concat cs) extra e (omega (arith, long)))
      ]

-- The connect frame of a text whose frame has at most 2^20 bytes is read from the stream however it is
-- cut into non-empty reads, whatever bytes follow it in the reads and whatever reads come later.
pub read_first_frame-encode :
    (text : Bytes) (chunks : List Bytes) (later : List Read) (extra : Bytes)
    → 14 + length text ≤ 2 ^ 20
    → All IsNonempty chunks
    → concat chunks ≡ encode text ++ extra
    → read_first_frame (arrivals chunks later) ≡ done text
unfolding read_first_frame
read_first_frame-encode text chunks later extra small ok e =
    loop-frame text small [] chunks later extra ok e
