-- ===== src/Base/Wire.antt =====
-- Bytes on the wire: a byte string is a list of numbers below 256. `to_be k v` is Rust's
-- `v.to_be_bytes()` for a `k`-byte integer and `from_be` its inverse; `position_of` is
-- `windows(n).position(|w| w == needle)`.
use Prim.Native.Char.{code}
use Prim.Native.String.{String}
use native.Mathlib.Nat.{pow-suc, pow-le-pow_right, le_trans}
use mathlib.Core.Path.{subst}
use pcsuite_rs.Base.{
  take, drop, ap, ℕ, zero, suc, ◌+◌, ◌*◌, ◌/◌, ◌%◌, ◌^◌, ◌<◌, ◌≡◌, refl, ◌∙◌, Bool, true, false,
  ◌&&◌, List, [], ◌∷◌, ◌++◌, Option, none, some, arith, length, length-append, length-take, All,
  ◌==◌, if◌then◌else◌,
}

abbrev pub Bytes : Type 0
Bytes = List ℕ

abbrev pub IsByte : ℕ → Type 0
IsByte b = b < 256

abbrev pub IsBytes : Bytes → Type 0
IsBytes = All IsByte

-- The code points of a text: its bytes, if it is ASCII.
abbrev pub codes : String → Bytes
codes String.[] = []
codes (String.◌∷◌ c s) = code c ∷ codes s

unfoldable pub to_be : ℕ → ℕ → Bytes
to_be zero v = []
to_be (suc k) v = to_be k (v / 256) ++ (v % 256 ∷ [])

unfoldable pub from_be_acc : ℕ → Bytes → ℕ
from_be_acc acc [] = acc
from_be_acc acc (b ∷ bs) = from_be_acc (acc * 256 + b) bs

unfoldable pub from_be : Bytes → ℕ
unfolding from_be_acc
from_be bs = from_be_acc 0 bs

pub length-to_be : (k v : ℕ) → length (to_be k v) ≡ k
unfolding to_be
length-to_be zero v = refl
length-to_be (suc k) v =
    omega (arith, length-append (to_be k (v / 256)) (v % 256 ∷ []), length-to_be k (v / 256))

from_be_acc-concat :
    (acc : ℕ) (bs : Bytes) (b : ℕ) → from_be_acc acc (bs ++ (b ∷ [])) ≡ from_be_acc acc bs * 256 + b
unfolding from_be_acc
from_be_acc-concat acc [] b = refl
from_be_acc-concat acc (x ∷ bs) b = from_be_acc-concat (acc * 256 + x) bs b

-- Reading back what was written, for an integer that fits.
pub from_be-to_be : (k v : ℕ) → v < 256 ^ k → from_be (to_be k v) ≡ v
unfolding from_be to_be
from_be-to_be zero v h = omega arith
from_be-to_be (suc k) v h =
    from_be_acc-concat 0 (to_be k (v / 256)) (v % 256)
    ∙ rw (from_be-to_be k (v / 256) (omega (arith, pow-suc 256 k))) (omega arith)

pub IsBytes-append : (xs ys : Bytes) → IsBytes xs → IsBytes ys → IsBytes (xs ++ ys)
IsBytes-append [] ys h k = k
IsBytes-append (x ∷ xs) ys (h, hs) k = (h, IsBytes-append xs ys hs k)

pub to_be-IsBytes : (k v : ℕ) → IsBytes (to_be k v)
unfolding to_be
to_be-IsBytes zero v = tt
to_be-IsBytes (suc k) v =
    IsBytes-append (to_be k (v / 256)) (v % 256 ∷ []) (to_be-IsBytes k (v / 256)) (omega arith, tt)

widen : (x acc b p : ℕ) → b < 256 → x < (acc * 256 + b + 1) * p → x < (acc + 1) * (p * 256)
widen x acc b p h k = grind arith

from_be_acc-lt :
    (bs : Bytes) (acc : ℕ) → IsBytes bs → from_be_acc acc bs < (acc + 1) * 256 ^ length bs
unfolding from_be_acc
from_be_acc-lt [] acc h = omega arith
from_be_acc-lt (b ∷ bs) acc (h, hs) =
    rw (pow-suc 256 (length bs))
      (widen _ acc b (256 ^ length bs) h (from_be_acc-lt bs (acc * 256 + b) hs))

-- An integer read from `k` bytes fits `k` bytes.
pub from_be-lt : (bs : Bytes) → IsBytes bs → from_be bs < 256 ^ length bs
unfolding from_be
from_be-lt bs h = omega (arith, from_be_acc-lt bs 0 h)

-- `hay.starts_with(needle)`
unfoldable pub starts_with : Bytes → Bytes → Bool
starts_with hay [] = true
starts_with [] (n ∷ ns) = false
starts_with (h ∷ hs) (n ∷ ns) = h == n && starts_with hs ns

-- The first position at which the needle stands, counted from `i`.
unfoldable pub position_from : ℕ → Bytes → Bytes → Option ℕ
unfolding starts_with
position_from i needle [] = none
position_from i needle (h ∷ hs) =
    if starts_with (h ∷ hs) needle then some i else position_from (i + 1) needle hs

unfoldable pub position_of : Bytes → Bytes → Option ℕ
unfolding position_from
position_of needle hay = position_from 0 needle hay

split_last :
    (x : ℕ) (xs : Bytes)
    → (ys : Bytes) × (y : ℕ) × (x ∷ xs ≡ ys ++ (y ∷ [])) × (length ys ≡ length xs)
split_last x [] = ([], x, refl, refl)
split_last x (z ∷ zs) = let (ys, y, e, l) = split_last z zs in (x ∷ ys, y, ap (◌∷◌ x) e, ap suc l)

IsBytes-concat_last : (ys : Bytes) (y : ℕ) → IsBytes (ys ++ (y ∷ [])) → IsBytes ys × IsByte y
IsBytes-concat_last [] y h = (tt, h.0)
IsBytes-concat_last (x ∷ ys) y h = let (hs, hy) = IsBytes-concat_last ys y h.1 in ((h.0, hs), hy)

to_be-from_be_acc :
    (k : ℕ) (bs : Bytes) (acc : ℕ) → length bs ≡ k → IsBytes bs → to_be k (from_be_acc acc bs) ≡ bs
unfolding to_be
to_be-from_be_acc zero [] acc h ok = refl
to_be-from_be_acc zero (b ∷ bs) acc h ok = absurd (omega arith)
to_be-from_be_acc (suc k) [] acc h ok = absurd (omega arith)
to_be-from_be_acc (suc k) (b ∷ bs) acc h ok =
    let (ys, y, e, l) = split_last b bs in
    let (oks, oky) = IsBytes-concat_last ys y (subst IsBytes e ok) in
    let q : ℕ = from_be_acc acc ys in
    let high : (q * 256 + y) / 256 ≡ q = omega arith in
    let low : (q * 256 + y) % 256 ≡ y = omega arith in
    rw (e, from_be_acc-concat acc ys y, high, low, to_be-from_be_acc k ys acc (omega arith) oks)

-- Writing back what was read gives the same bytes.
pub to_be-from_be : (k : ℕ) (bs : Bytes) → length bs ≡ k → IsBytes bs → to_be k (from_be bs) ≡ bs
unfolding from_be
to_be-from_be k bs h ok = to_be-from_be_acc k bs 0 h ok

pub IsBytes-take : (n : ℕ) (bs : Bytes) → IsBytes bs → IsBytes (take n bs)
IsBytes-take zero bs h = tt
IsBytes-take (suc n) [] h = tt
IsBytes-take (suc n) (b ∷ bs) (h, hs) = (h, IsBytes-take n bs hs)

pub IsBytes-drop : (n : ℕ) (bs : Bytes) → IsBytes bs → IsBytes (drop n bs)
IsBytes-drop zero bs h = h
IsBytes-drop (suc n) [] h = tt
IsBytes-drop (suc n) (b ∷ bs) (h, hs) = IsBytes-drop n bs hs

-- An integer read from at most `k` bytes fits `k` bytes.
pub from_be-take_lt : (k : ℕ) (bs : Bytes) → IsBytes bs → from_be (take k bs) < 256 ^ k
from_be-take_lt k bs h =
    le_trans (from_be-lt (take k bs) (IsBytes-take k bs h))
      (pow-le-pow_right (omega arith) (omega (arith, length-take k bs)))
