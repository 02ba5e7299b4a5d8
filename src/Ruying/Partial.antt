-- ===== src/Ruying/Partial.antt =====
-- `parse` on buffers that hold less than a frame, or no frame: crates/pcsuite-proto/src/ruying.rs.
use native.Mathlib.Decide.{dec_lt}
use native.Mathlib.Nat.{le_refl}
use pcsuite_rs.Base.{
  ℕ, ◌+◌, ◌^◌, ◌≤◌, ◌<◌, ◌≡◌, ◌↔◌, ap, [], ◌∷◌, ◌++◌, length, arith, slice, take, drop,
  length-append, append-nil, take-append_le,
}
use pcsuite_rs.Base.Wire.{Bytes, IsBytes, from_be, from_be-take_lt, IsBytes-take, IsBytes-drop}
use pcsuite_rs.Base.Outcome.{ok, panic}
use pcsuite_rs.Ruying.{RuyingFrame, build, need_more, parse, parse_inner}
use pcsuite_rs.Ruying.RoundTrip.{IsWellFormed, length-build, prefix_read}

abbrev total_rest : Bytes → ℕ
total_rest buf = from_be (slice 0 8 buf)

-- `parse` panics exactly on 8 to 37 buffered bytes whose length prefix is one of the eight largest
-- 64-bit values: then `PREFIX_LEN + total_rest` wraps, the length test passes, and the slice of the
-- inner header is out of range.
pub parse-panics :
    (buf : Bytes)
    → IsBytes buf
    → (parse buf ≡ panic) ↔ ((8 ≤ length buf) × (length buf < 38) × (2 ^ 64 ≤ total_rest buf + 8))
unfolding parse parse_inner
parse-panics buf h = (λ e. ground (arith, prefix, count), λ p. ground (arith, prefix))
  where
    prefix : total_rest buf < 2 ^ 64
    prefix = from_be-take_lt 8 buf h

    count : from_be (take 4 (drop 26 (take 30 (drop 8 buf)))) < 2 ^ 32
    count = from_be-take_lt 4 _ (IsBytes-drop 26 _ (IsBytes-take 30 _ (IsBytes-drop 8 buf h)))

-- On an incomplete frame `parse` asks for more bytes than there are, and for no more than the frame
-- has.
pub parse-prefix :
    (f : RuyingFrame) (front back : Bytes) (x : ℕ)
    → IsWellFormed f
    → build f ≡ front ++ (x ∷ back)
    → (n : ℕ) × (parse front ≡ ok (need_more n)) × (length front < n) × (n ≤ length (build f))
unfolding parse
parse-prefix f front back x w e = elim (dec_lt (length front) 8) [
  | yes h ↦ (8, ground arith, h, omega (arith, length-build f w))
  | no h ↦ (
    length (build f),
    ground (arith, value h, w.cipher_fits, length-build f w, shorter),
    shorter,
    le_refl _,
  )
]
  where
    shorter : length front < length (build f)
    shorter = omega (arith, ap length e, length-append front (x ∷ back))

    value : ¬ (length front < 8) → from_be (take 8 front) ≡ 30 + length f.cipher
    value h =
        rw (← take-append_le 8 front (x ∷ back) (omega arith), ← e, ← append-nil (build f))
          (prefix_read f w [])
