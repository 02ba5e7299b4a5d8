-- ===== src/Base/Text/Parts.antt =====
-- Parts of a text behind or in front of a byte, and paths.
use pcsuite_rs.Base.{
  ℕ, Bool, false, [], ◌∷◌, ◌++◌, Option, none, some, ◌==◌, if◌then◌else◌, map, is_empty, drop,
  length,
}
use pcsuite_rs.Base.Wire.{Bytes, position_of}
use pcsuite_rs.Base.Maybe.{◌>>=◌}
use pcsuite_rs.Base.Text.{lower}

-- `s.rsplit_once(c)`: the text in front of the last of a byte and behind it.
unfoldable pub rsplit_once : ℕ → Bytes → Option (Bytes × Bytes)
rsplit_once c [] = none
rsplit_once c (b ∷ bs) = elim (rsplit_once c bs) [
  | some (front, back) ↦ some (b ∷ front, back)
  | none ↦ if b == c then some ([], bs) else none
]

-- `s.rsplit(c).next()`
unfoldable pub after_last : ℕ → Bytes → Bytes
unfolding rsplit_once
after_last c bs = elim (rsplit_once c bs) [ none ↦ bs | some (front, back) ↦ back ]

-- `s.to_ascii_lowercase()`
abbrev pub to_ascii_lowercase : Bytes → Bytes
to_ascii_lowercase = map lower

-- `s.replace(a, "b")` for one byte each.
abbrev pub replace_byte : ℕ → ℕ → Bytes → Bytes
replace_byte a b [] = []
replace_byte a b (c ∷ cs) = (if c == a then b else c) ∷ replace_byte a b cs

-- `s.find(needle)` and the text from there on.
unfoldable pub from_first : Bytes → Bytes → Option Bytes
from_first needle s = do i ← position_of needle s; some (drop i s)

-- The text behind the first of a needle.
unfoldable pub behind_first : Bytes → Bytes → Option Bytes
behind_first needle s = do i ← position_of needle s; some (drop (length needle) (drop i s))

abbrev ends_with_slash : Bytes → Bool
ends_with_slash [] = false
ends_with_slash (b ∷ []) = b == b'/'
ends_with_slash (b ∷ (c ∷ bs)) = ends_with_slash (c ∷ bs)

-- `dir.join(name)` for a relative name
unfoldable pub join_path : Bytes → Bytes → Bytes
join_path dir name =
    if is_empty dir then name else if ends_with_slash dir then dir ++ name else dir ++ (b'/' ∷ name)
