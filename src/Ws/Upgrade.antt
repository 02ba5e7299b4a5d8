-- ===== src/Ws/Upgrade.antt =====
-- crates/pcsuite-net/src/ws.rs: the reading of the upgrade response.
use pcsuite_rs.Base.{
  ℕ, ◌+◌, ◌-◌, ◌<◌, ◌≤◌, ◌≡◌, refl, ap, sym, ◌∙◌, true, [], ◌∷◌, ◌++◌, some, length, leb, leb→le,
  le→leb, bytes_eq, bytes_eq_iff, drop, arith, length-append, le→ltb_false, Bool-cases, inl, inr,
  append_assoc, drop-append_le, drop-append,
}
use pcsuite_rs.Base.Wire.{Bytes, starts_with, position_of}
use pcsuite_rs.Base.Search.{starts_with-append, position_from_least}
use pcsuite_rs.Base.Result.{done}
use pcsuite_rs.Ws.{terminator, is_ended, upgrade_loop}

-- Bytes that end with the terminator hold it four bytes before their end.
is_ended-least :
    (now later : Bytes) (m : ℕ)
    → is_ended now ≡ true
    → position_of terminator (now ++ later) ≡ some m
    → m + 4 ≤ length now
unfolding is_ended position_of
is_ended-least now later m ended e =
    let long : 4 ≤ length now = leb→le 4 (length now) (ground arith) in
    let same : bytes_eq (drop (length now - 4) now) terminator ≡ true = ground arith in
    let eq = (bytes_eq_iff (drop (length now - 4) now) terminator).0 same in
    let here : starts_with (drop (length now - 4) (now ++ later)) terminator ≡ true =
      ap (λ d. starts_with d terminator)
        (drop-append_le (length now - 4) now later (omega (arith, long)) ∙ ap (λ d. d ++ later) eq)
      ∙ starts_with-append terminator later in
    let r =
      position_from_least 0 (length now - 4) m terminator (now ++ later) e
        (omega (arith, long, length-append now later)) here in
    omega (arith, r, long)

is_ended-append : (h : Bytes) → is_ended (h ++ terminator) ≡ true
unfolding is_ended
is_ended-append h =
    let n : length (h ++ terminator) - 4 ≡ length h = omega (arith, length-append h terminator) in
    rw
      (
        le→leb 4 (length (h ++ terminator)) (omega (arith, length-append h terminator)),
        n,
        drop-append (length h) h terminator refl,
      )
      ((bytes_eq_iff terminator terminator).1 refl)

is_ended-long : (buf : Bytes) → is_ended buf ≡ true → leb 4 (length buf) ≡ true
unfolding is_ended
is_ended-long buf h = ground arith

-- Once `now` has been read of a head that ends at its first terminator.
upgrade_loop-rest :
    (now later rest head : Bytes)
    → now ++ later ≡ head
    → 0 < length later
    → position_of terminator head ≡ some (length head - 4)
    → is_ended head ≡ true
    → length head ≤ 8192
    → upgrade_loop now (later ++ rest) ≡ done (head, rest)
unfolding upgrade_loop
upgrade_loop-rest now [] rest head e h first ended fits = absurd (omega arith)
upgrade_loop-rest now (b ∷ []) rest head e h first ended fits = rw (e, ended)
upgrade_loop-rest now (b ∷ (c ∷ later)) rest head e h first ended fits =
    let size = length-append now (b ∷ c ∷ later) in
    let len : length now + length (b ∷ c ∷ later) ≡ length head = sym size ∙ ap length e in
    let whole = append_assoc now (b ∷ []) (c ∷ later) ∙ e in
    let long : 4 ≤ length head = leb→le 4 (length head) (is_ended-long head ended) in
    let next =
      upgrade_loop-rest (now ++ (b ∷ [])) (c ∷ later) rest head whole (omega arith) first ended
        fits in
    elim (Bool-cases (is_ended (now ++ (b ∷ [])))) [
      | inl early ↦
          let r =
            is_ended-least (now ++ (b ∷ [])) (c ∷ later) (length head - 4) early
              (ap (position_of terminator) whole ∙ first) in
          absurd (omega (arith, r, long, len, length-append now (b ∷ [])))
      | inr open_ ↦
          rw
            (
              upgrade_loop,
              open_,
              le→ltb_false 8192 (length (now ++ (b ∷ [])))
                  (omega (arith, len, fits, length-append now (b ∷ []))),
            )
            next
    ]

-- A response head of at most 8192 bytes that ends at its first blank line is read whole, and none of
-- the bytes behind it is consumed.
pub upgrade_loop-head :
    (h rest : Bytes)
    → position_of terminator (h ++ terminator) ≡ some (length h)
    → length h + 4 ≤ 8192
    → upgrade_loop [] ((h ++ terminator) ++ rest) ≡ done (h ++ terminator, rest)
upgrade_loop-head h rest first fits =
    let len = length-append h terminator in
    let n : length (h ++ terminator) - 4 ≡ length h = omega (arith, len) in
    upgrade_loop-rest [] (h ++ terminator) rest (h ++ terminator) refl (omega (arith, len))
      (first ∙ ap some (sym n)) (is_ended-append h) (omega (arith, len))
