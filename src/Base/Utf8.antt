-- ===== src/Base/Utf8.antt =====
-- `String::from_utf8_lossy` and `str::from_utf8` of the standard library. A Rust string is the list of
-- its UTF-8 bytes; an ill-formed sequence, up to the first byte that cannot continue it, is replaced by
-- U+FFFD.
use pcsuite_rs.Base.{
  ℕ, zero, suc, ◌<◌, ◌≤◌, All, lt→ltb, ◌≡◌, refl, Bool, true, false, ◌&&◌, [], ◌∷◌, ◌++◌, none,
  some, arith, ltb, leb, ◌==◌, if◌then◌else◌, length, take, drop, take-append-drop, get_elem?,
}
use pcsuite_rs.Base.Wire.{Bytes}

abbrev within : ℕ → ℕ → ℕ → Bool
within lo hi b = leb lo b && leb b hi

-- The byte at a position lies in a range; past the end it does not.
abbrev at_within : Bytes → ℕ → ℕ → ℕ → Bool
at_within bs i lo hi = elim (get_elem? bs i) [ none ↦ false | some b ↦ within lo hi b ]

abbrev continues : Bytes → ℕ → Bool
continues bs i = at_within bs i 0x80 0xbf

-- The second byte that a three- or four-byte sequence may have after its first.
second_ok : ℕ → Bytes → Bool
second_ok b bs =
    if b == 0xe0
    then at_within bs 0 0xa0 0xbf
    else if b == 0xed
    then at_within bs 0 0x80 0x9f
    else if b == 0xf0
    then at_within bs 0 0x90 0xbf
    else if b == 0xf4
    then at_within bs 0 0x80 0x8f
    else continues bs 0

-- The sequence that starts with `b`, followed by `bs`: whether it is well-formed, and how many bytes
-- behind `b` belong to it or to its ill-formed part.
pub utf8_sequence : ℕ → Bytes → Bool × ℕ
unfolding second_ok
utf8_sequence b bs =
    if ltb b 0x80
    then (true, 0)
    else if within 0xc2 0xdf b
    then (if continues bs 0 then (true, 1) else (false, 0))
    else if within 0xe0 0xef b
    then (if second_ok b bs then if continues bs 1 then (true, 2) else (false, 1) else (false, 0))
    else if within 0xf0 0xf4 b
    then (if second_ok b bs
        then if continues bs 1 then if continues bs 2 then (true, 3) else (false, 2) else (false, 1)
        else (false, 0))
    else (false, 0)

abbrev replacement : Bytes
replacement = 0xef ∷ 0xbf ∷ 0xbd ∷ []

abbrev shown : Bool → Bytes → Bytes
shown ok bs = if ok then bs else replacement

lossy_loop : ℕ → Bytes → Bytes
lossy_loop fuel [] = []
lossy_loop zero (b ∷ bs) = []
lossy_loop (suc fuel) (b ∷ bs) =
    let (ok, n) = utf8_sequence b bs in shown ok (b ∷ take n bs) ++ lossy_loop fuel (drop n bs)

-- Each round takes a byte at least, so a round for each byte is enough.
unfoldable pub from_utf8_lossy : Bytes → Bytes
unfolding lossy_loop utf8_sequence
from_utf8_lossy bs = lossy_loop (length bs) bs

valid_loop : ℕ → Bytes → Bool
valid_loop fuel [] = true
valid_loop zero (b ∷ bs) = false
valid_loop (suc fuel) (b ∷ bs) =
    let (ok, n) = utf8_sequence b bs in ok && valid_loop fuel (drop n bs)

unfoldable pub is_utf8 : Bytes → Bool
unfolding valid_loop utf8_sequence
is_utf8 bs = valid_loop (length bs) bs

lossy_loop-valid : (fuel : ℕ) (bs : Bytes) → valid_loop fuel bs ≡ true → lossy_loop fuel bs ≡ bs
unfolding lossy_loop valid_loop
lossy_loop-valid fuel [] h = refl
lossy_loop-valid zero (b ∷ bs) h = cc
lossy_loop-valid (suc fuel) (b ∷ bs) h =
    let n = (utf8_sequence b bs).1 in
    ground (arith, lossy_loop-valid fuel (drop n bs), take-append-drop n bs)

-- Text that is UTF-8 already is left as it is.
pub from_utf8_lossy-valid : (bs : Bytes) → is_utf8 bs ≡ true → from_utf8_lossy bs ≡ bs
unfolding from_utf8_lossy is_utf8
from_utf8_lossy-valid bs h = lossy_loop-valid (length bs) bs h

valid_loop-ascii :
    (fuel : ℕ) (bs : Bytes) → All (λ b. b < 0x80) bs → length bs ≤ fuel → valid_loop fuel bs ≡ true
unfolding valid_loop utf8_sequence
valid_loop-ascii fuel [] h f = refl
valid_loop-ascii zero (b ∷ bs) h f = absurd (omega arith)
valid_loop-ascii (suc fuel) (b ∷ bs) (h, hs) f =
    rw (valid_loop, utf8_sequence, lt→ltb b 0x80 h) (valid_loop-ascii fuel bs hs (omega arith))

-- ASCII text is left as it is.
pub from_utf8_lossy-ascii : (bs : Bytes) → All (λ b. b < 0x80) bs → from_utf8_lossy bs ≡ bs
unfolding is_utf8
from_utf8_lossy-ascii bs h =
    from_utf8_lossy-valid bs (valid_loop-ascii (length bs) bs h (omega arith))

pub is_utf8-ascii : (bs : Bytes) → All (λ b. b < 0x80) bs → is_utf8 bs ≡ true
unfolding is_utf8
is_utf8-ascii bs h = valid_loop-ascii (length bs) bs h (omega arith)
