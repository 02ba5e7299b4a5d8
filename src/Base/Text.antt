-- ===== src/Base/Text.antt =====
-- `str` of the standard library on the UTF-8 bytes of a text: lines, white space, case, numbers.
pub mod Hex
pub mod Decimal
pub mod Parts
pub mod Clear
use pcsuite_rs.Base.{
  ℕ, zero, suc, ◌+◌, ◌-◌, ◌*◌, ◌/◌, ◌%◌, ◌<◌, ◌≤◌, ◌≡◌, ◌≢◌, refl, Bool, true, false, ◌&&◌, ◌||◌,
  List, [], ◌∷◌, ◌++◌, Option, none, some, length, ltb, leb, if◌then◌else◌, ◌==◌, drop, take,
  is_empty, arith,
}
use pcsuite_rs.Base.Wire.{Bytes, codes, starts_with}
use pcsuite_rs.Base.Maybe.{◌>>=◌}
use pcsuite_rs.Base.Outcome.{usize_mod}

abbrev pub in_range : ℕ → ℕ → ℕ → Bool
in_range lo hi b = leb lo b && leb b hi

-- The bytes of the white space character that the text starts with, or 0.
unfoldable pub white_prefix : Bytes → ℕ
white_prefix [] = 0
white_prefix (b ∷ []) = if in_range 9 13 b || b == 32 then 1 else 0
white_prefix (b ∷ (c ∷ [])) =
    if in_range 9 13 b || b == 32 then 1 else if b == 0xc2 && (c == 0x85 || c == 0xa0) then 2 else 0
white_prefix (b ∷ (c ∷ (d ∷ bs))) =
    if in_range 9 13 b || b == 32
    then 1
    else if b == 0xc2 && (c == 0x85 || c == 0xa0)
    then 2
    else if b == 0xe1 && c == 0x9a && d == 0x80
        || b == 0xe2 && c == 0x80 && (in_range 0x80 0x8a d || d == 0xa8 || d == 0xa9 || d == 0xaf)
        || b == 0xe2 && c == 0x81 && d == 0x9f
        || b == 0xe3 && c == 0x80 && d == 0x80
    then 3
    else 0

-- With fuel for each byte.
unfoldable pub trim_start_loop : ℕ → Bytes → Bytes
trim_start_loop zero bs = bs
trim_start_loop (suc fuel) bs =
    let rest = trim_start_loop fuel (drop (white_prefix bs) bs) in
    if white_prefix bs == 0 then bs else rest

unfoldable pub trim_start : Bytes → Bytes
trim_start bs = trim_start_loop (length bs) bs

-- A white space character starts with a byte that no character has behind its first, so the bytes of a
-- text can be taken one by one.
unfoldable pub trim_end : Bytes → Bytes
trim_end [] = []
trim_end (b ∷ bs) =
    let rest = b ∷ trim_end bs in if is_empty (trim_start (b ∷ bs)) then [] else rest

unfoldable pub trim : Bytes → Bytes
trim bs = trim_end (trim_start bs)

-- The text up to the first of a byte, and what follows that byte.
unfoldable pub split_once : ℕ → Bytes → Bytes × Option Bytes
split_once c [] = ([], none)
split_once c (b ∷ bs) =
    let (before, after) = split_once c bs in if b == c then ([], some bs) else (b ∷ before, after)

-- `s.split(c).next()`
abbrev pub before_first : ℕ → Bytes → Bytes
before_first c bs = (split_once c bs).0

-- `s.split(c)`, with fuel for each byte.
unfoldable pub split_loop : ℕ → ℕ → Bytes → List Bytes
split_loop zero c bs = bs ∷ []
split_loop (suc fuel) c bs = elim ((split_once c bs).1) [
  | none ↦ bs ∷ []
  | some after ↦ (split_once c bs).0 ∷ split_loop fuel c after
]

unfoldable pub split : ℕ → Bytes → List Bytes
split c bs = split_loop (length bs) c bs

abbrev pub strip_cr : Bytes → Bytes
strip_cr [] = []
strip_cr (b ∷ []) = if b == 13 then [] else b ∷ []
strip_cr (b ∷ (c ∷ bs)) = b ∷ strip_cr (c ∷ bs)

-- The lines between line feeds; the text behind the last one is a line if it has a byte. A line loses
-- the carriage return in front of its line feed.
abbrev pub ended_lines : List Bytes → List Bytes
ended_lines [] = []
ended_lines (l ∷ []) = if is_empty l then [] else l ∷ []
ended_lines (l ∷ (m ∷ ls)) = strip_cr l ∷ ended_lines (m ∷ ls)

-- `s.lines()`
unfoldable pub lines : Bytes → List Bytes
lines bs = ended_lines (split 10 bs)

-- The words between runs of white space: `word` is the word being read.
unfoldable pub words_loop : ℕ → Bytes → Bytes → List Bytes
words_loop zero word bs = if is_empty word then [] else word ∷ []
words_loop (suc fuel) word [] = if is_empty word then [] else word ∷ []
words_loop (suc fuel) word (b ∷ bs) =
    let n = white_prefix (b ∷ bs) in
    let inside = words_loop fuel (word ++ (b ∷ [])) bs in
    let outside = words_loop fuel [] (drop n (b ∷ bs)) in
    if n == 0 then inside else if is_empty word then outside else word ∷ outside

-- `s.split_whitespace()`
unfoldable pub split_whitespace : Bytes → List Bytes
split_whitespace bs = words_loop (length bs) [] bs

-- `s.strip_prefix(p)`
unfoldable pub strip_prefix : Bytes → Bytes → Option Bytes
strip_prefix p s = if starts_with s p then some (drop (length p) s) else none

-- `s.contains(needle)`
unfoldable pub contains : Bytes → Bytes → Bool
contains [] needle = is_empty needle
contains (b ∷ bs) needle =
    let rest = contains bs needle in if starts_with (b ∷ bs) needle then true else rest

abbrev pub lower : ℕ → ℕ
lower b = if in_range 65 90 b then b + 32 else b

abbrev pub digit_of : ℕ → ℕ → Option ℕ
digit_of radix b =
    let v =
      if in_range 48 57 b
      then b - 48
      else if in_range 97 122 (lower b)
      then lower b - 87
      else radix in
    if ltb v radix then some v else none

-- The digits behind those that gave `acc`; `none` past `limit` or at a byte that is no digit.
unfoldable pub digits_from : ℕ → ℕ → ℕ → Bytes → Option ℕ
digits_from radix limit acc [] = some acc
digits_from radix limit acc (b ∷ bs) = do
  v ← digit_of radix b
  let next = acc * radix + v
  let rest = digits_from radix limit next bs
  if ltb next limit then rest else none

-- `uN::from_str_radix`: digits, with one `+` in front allowed, below `limit`.
unfoldable pub from_str_radix : ℕ → ℕ → Bytes → Option ℕ
from_str_radix radix limit [] = none
from_str_radix radix limit (b ∷ []) = if b == b'+' then none else digits_from radix limit 0 (b ∷ [])
from_str_radix radix limit (b ∷ (c ∷ bs)) =
    if b == b'+'
    then digits_from radix limit 0 (c ∷ bs)
    else digits_from radix limit 0 (b ∷ (c ∷ bs))

-- `n.to_string()`, with fuel for each digit: `n` of them are enough.
abbrev pub decimal_loop : ℕ → ℕ → Bytes
decimal_loop zero n = []
decimal_loop (suc fuel) n =
    let high = decimal_loop fuel (n / 10) in
    if ltb n 10 then (48 + n) ∷ [] else high ++ ((48 + n % 10) ∷ [])

-- A `u64` has at most 20 digits.
unfoldable pub to_decimal : ℕ → Bytes
to_decimal n = decimal_loop 20 n

abbrev pub hex_digit : ℕ → ℕ
hex_digit d = if ltb d 10 then 48 + d else 87 + d

abbrev pub hex_loop : ℕ → ℕ → Bytes
hex_loop zero n = []
hex_loop (suc fuel) n =
    let high = hex_loop fuel (n / 16) in
    if ltb n 16 then hex_digit n ∷ [] else high ++ (hex_digit (n % 16) ∷ [])

-- `format!("{n:x}")`: a `usize` has at most 16 digits.
unfoldable pub to_hex : ℕ → Bytes
to_hex n = hex_loop 16 n
