-- ===== src/Ws/RoundTrip.antt =====
-- crates/pcsuite-net/src/ws.rs: what `send_frame` sends is what `recv` receives.
use pcsuite_rs.Base.{
  ℕ, zero, suc, ◌+◌, ◌%◌, ◌^◌, ◌<◌, ◌≡◌, refl, ap, ◌∙◌, [], ◌∷◌, ◌++◌, length, ltb, ==-≢, get_or,
  bit_and, bit_or, arith, length-append, take-append, drop-append, le→ltb_false, Bool-cases, ◌||◌,
  ◌==◌, ◌≢◌, ◌⊎◌, inl, inr, ltb→lt, append_assoc,
}
use pcsuite_rs.Base.Tables.{xor_twice, low_bits, high_bit, low_nibble}
use pcsuite_rs.Base.Wire.{Bytes, IsByte, IsBytes, to_be, length-to_be, from_be-to_be}
use pcsuite_rs.Base.Outcome.{u16_mod, usize_mod}
use pcsuite_rs.Base.Utf8.{from_utf8_lossy}
use pcsuite_rs.Base.Result.{done}
use pcsuite_rs.Ws.{
  mask_from, length_field, send_frame, read_exact, read_len, read_payload, frame_of, recv, WsFrame,
  text, binary, close, ping, pong,
}

get_or-IsByte : (bs : Bytes) (i : ℕ) → IsBytes bs → IsByte (get_or bs i 0)
get_or-IsByte [] i h = omega arith
get_or-IsByte (b ∷ bs) zero (h, hs) = h
get_or-IsByte (b ∷ bs) (suc i) (h, hs) = get_or-IsByte bs i hs

mask_twice :
    (i : ℕ) (mask bs : Bytes)
    → IsBytes mask
    → IsBytes bs
    → mask_from i mask (mask_from i mask bs) ≡ bs
unfolding mask_from
mask_twice i mask [] hm h = refl
mask_twice i mask (b ∷ bs) hm (h, hs) =
    rw (xor_twice b _ h (get_or-IsByte mask (bit_and i 3) hm), mask_twice (i + 1) mask bs hm hs)

length-mask_from : (i : ℕ) (mask bs : Bytes) → length (mask_from i mask bs) ≡ length bs
unfolding mask_from
length-mask_from i mask [] = refl
length-mask_from i mask (b ∷ bs) = ap suc (length-mask_from (i + 1) mask bs)

read_exact-append :
    (n : ℕ) (xs ys : Bytes) → length xs ≡ n → read_exact n (xs ++ ys) ≡ done (xs, ys)
unfolding read_exact
read_exact-append n xs ys h = rw (
  le→ltb_false (length (xs ++ ys)) n (omega (arith, length-append xs ys)),
  take-append n xs ys h,
  drop-append n xs ys h,
)

-- A length field is a byte with the mask bit, from which the length is found with the bytes behind it.
record LengthRead (n : ℕ) : Type 0 where
  first : ℕ
  more : Bytes
  field : length_field n ≡ bit_or 0x80 first ∷ more
  small : first < 128
  found : (s : Bytes) → read_len first (more ++ s) ≡ done (n, s)

length_field-LengthRead : (n : ℕ) → n < 2 ^ 64 → LengthRead n
unfolding length_field read_len
length_field-LengthRead n h = elim (Bool-cases (ltb n 126)) [
  | inl short ↦ record {
    first = n;
    more = [];
    field = rw short;
    small = omega (arith, ltb→lt n 126 short);
    found =
        λ s. let l = ltb→lt n 126 short in rw (==-≢ n 126 (omega arith), ==-≢ n 127 (omega arith));
  }
  | inr long ↦ elim (Bool-cases (ltb n 65536)) [
    | inl mid ↦ record {
      first = 126;
      more = to_be 2 (n % u16_mod);
      field = rw (long, mid);
      small = omega arith;
      found = λ s.
          let l = ltb→lt n 65536 mid in
          let e : n % u16_mod ≡ n = omega arith in
          rw (
            e,
            read_exact-append 2 (to_be 2 n) s (length-to_be 2 n),
            from_be-to_be 2 n (omega arith),
          );
    }
    | inr big ↦ record {
      first = 127;
      more = to_be 8 (n % usize_mod);
      field = rw (long, big);
      small = omega arith;
      found = λ s.
          let e : n % usize_mod ≡ n = omega arith in
          rw (
            e,
            read_exact-append 8 (to_be 8 n) s (length-to_be 8 n),
            from_be-to_be 8 n (omega arith),
          );
    }
  ]
]

-- What a sent frame is received as.
recv-send_frame :
    (mask : Bytes) (opcode : ℕ) (payload rest : Bytes)
    → length mask ≡ 4
    → IsBytes mask
    → opcode < 16
    → IsBytes payload
    → length payload < 2 ^ 64
    → recv (send_frame mask opcode payload ++ rest) ≡ done (frame_of opcode payload, rest)
unfolding recv send_frame read_payload
recv-send_frame mask opcode payload rest len_mask hm ho hp fits =
    let l = length_field-LengthRead (length payload) fits in
    let body = mask_from 0 mask payload in
    let tail = mask ++ (body ++ rest) in
    let shape : send_frame mask opcode payload ++ rest
        ≡ (bit_or 0x80 opcode ∷ bit_or 0x80 l.first ∷ []) ++ (l.more ++ tail) =
      append_assoc (bit_or 0x80 opcode ∷ (length_field (length payload) ++ mask)) body rest
      ∙ ap (◌∷◌ (bit_or 0x80 opcode)) (
          append_assoc (length_field (length payload)) mask (body ++ rest)
          ∙ ap (λ f. f ++ tail) l.field) in
    ap recv shape
    ∙ rw (
      recv,
      read_exact-append 2 (bit_or 0x80 opcode ∷ bit_or 0x80 l.first ∷ []) (l.more ++ tail) refl,
      low_bits l.first l.small,
      high_bit l.first l.small,
      low_nibble opcode ho,
      l.found tail,
      read_payload,
      read_exact-append 4 mask (body ++ rest) len_mask,
      read_exact-append (length payload) body rest (length-mask_from 0 mask payload),
      mask_twice 0 mask payload hm hp,
    )

-- The frames of RFC 6455 by their opcodes. A text that is no UTF-8 has its invalid parts replaced, the
-- payload of a close frame is not kept, and continuations and the reserved opcodes count as binary.
pub data Received : ℕ → Bytes → WsFrame → Type 0 where
  a_continuation : (p : Bytes) → Received 0 p (binary p)
  a_text : (p : Bytes) → Received 1 p (text (from_utf8_lossy p))
  a_binary : (p : Bytes) → Received 2 p (binary p)
  a_close : (p : Bytes) → Received 8 p close
  a_ping : (p : Bytes) → Received 9 p (ping p)
  a_pong : (p : Bytes) → Received 10 p (pong p)
  reserved : (n : ℕ) (p : Bytes) → (2 < n) × (n < 8) ⊎ (10 < n) × (n < 16) → Received n p (binary p)

Received-small : {n : ℕ} {p : Bytes} {f : WsFrame} → Received n p f → n < 16
Received-small (a_continuation p) = omega arith
Received-small (a_text p) = omega arith
Received-small (a_binary p) = omega arith
Received-small (a_close p) = omega arith
Received-small (a_ping p) = omega arith
Received-small (a_pong p) = omega arith
Received-small (reserved n p (inl h)) = omega (arith, h)
Received-small (reserved n p (inr h)) = omega (arith, h)

reserved_binary : (n : ℕ) (p : Bytes) → n ≢ 1 → n ≢ 8 → n ≢ 9 → n ≢ 10 → frame_of n p ≡ binary p
unfolding frame_of
reserved_binary n p a b c d = elim (Bool-cases (n == 2 || n == 0)) [
  | inl two ↦ rw (frame_of, ==-≢ n 1 a, two) refl
  | inr other ↦ rw (frame_of, ==-≢ n 1 a, other, ==-≢ n 8 b, ==-≢ n 9 c, ==-≢ n 10 d) refl
]

frame_of-Received : {n : ℕ} {p : Bytes} {f : WsFrame} → Received n p f → frame_of n p ≡ f
unfolding frame_of
frame_of-Received (a_continuation p) = refl
frame_of-Received (a_text p) = refl
frame_of-Received (a_binary p) = refl
frame_of-Received (a_close p) = refl
frame_of-Received (a_ping p) = refl
frame_of-Received (a_pong p) = refl
frame_of-Received (reserved n p (inl h)) =
    reserved_binary n p (λ e. absurd (omega (arith, h, e))) (λ e. absurd (omega (arith, h, e)))
      (λ e. absurd (omega (arith, h, e))) (λ e. absurd (omega (arith, h, e)))
frame_of-Received (reserved n p (inr h)) =
    reserved_binary n p (λ e. absurd (omega (arith, h, e))) (λ e. absurd (omega (arith, h, e)))
      (λ e. absurd (omega (arith, h, e))) (λ e. absurd (omega (arith, h, e)))

-- A frame that was sent under any mask is received as the kind that RFC 6455 gives its opcode, with its
-- payload where that kind carries one, and nothing of the bytes behind it is consumed. The mask has four
-- bytes and the payload fewer than 2^64.
pub recv-Received :
    (mask : Bytes) (opcode : ℕ) (payload rest : Bytes) (f : WsFrame)
    → Received opcode payload f
    → length mask ≡ 4
    → IsBytes mask
    → IsBytes payload
    → length payload < 2 ^ 64
    → recv (send_frame mask opcode payload ++ rest) ≡ done (f, rest)
recv-Received mask opcode payload rest f r len_mask hm hp fits =
    recv-send_frame mask opcode payload rest len_mask hm (Received-small r) hp fits
    ∙ ap (λ g. done (g, rest)) (frame_of-Received r)
