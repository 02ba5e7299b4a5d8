-- ===== src/Json.antt =====
-- The values of the crate serde_json that the code builds and reads. Its parser and its printer are
-- another crate's: the record `Serde`, with what it documents in `Laws`. A map keeps its keys sorted,
-- as serde_json's does (a `BTreeMap`).
pub mod Toy
use pcsuite_rs.Base.{
  ℕ, zero, suc, ◌^◌, ◌≡◌, Bool, true, false, ◌&&◌, List, [], ◌∷◌, Option, none, some, ltb, ◌==◌,
  if◌then◌else◌, bytes_eq,
}
use pcsuite_rs.Base.Wire.{Bytes}
use pcsuite_rs.Base.Utf8.{is_utf8}
use pcsuite_rs.Base.Int.{ℤ, pos, negsuc}

-- `neg_int n` is the negative integer -(n + 1), and `float` holds the text of a number that is no
-- integer.
pub data Number : Type 0 where
  pos_int neg_int : ℕ → Number
  float : Bytes → Number

mutual
  pub data Value : Type 0 where
    null : Value
    boolean : Bool → Value
    number : Number → Value
    string : Bytes → Value
    array : Values → Value
    object : Members → Value

  pub data Values : Type 0 where
    no_values : Values
    one_more : Value → Values → Values

  pub data Members : Type 0 where
    no_members : Members
    member : Bytes → Value → Members → Members

-- The order of the keys, that of `str`.
abbrev pub bytes_less : Bytes → Bytes → Bool
bytes_less xs [] = false
bytes_less [] (y ∷ ys) = true
bytes_less (x ∷ xs) (y ∷ ys) =
    let rest = bytes_less xs ys in if ltb x y then true else if x == y then rest else false

-- `map.insert(key, value)`
abbrev pub insert_member : Bytes → Value → Members → Members
insert_member k v no_members = member k v no_members
insert_member k v (member k' v' rest) =
    let later = insert_member k v rest in
    if bytes_eq k k'
    then member k v rest
    else if bytes_less k k'
    then member k v (member k' v' rest)
    else member k' v' later

abbrev pub insert_all : List (Bytes × Value) → Members → Members
insert_all [] ms = ms
insert_all ((k, v) ∷ kvs) ms = insert_all kvs (insert_member k v ms)

-- `json!({ … })`
abbrev pub json_object : List (Bytes × Value) → Value
json_object kvs = object (insert_all kvs no_members)

abbrev pub values_of : List Value → Values
values_of [] = no_values
values_of (v ∷ vs) = one_more v (values_of vs)

-- `json!([ … ])`
abbrev pub json_array : List Value → Value
json_array vs = array (values_of vs)

abbrev pub items : Values → List Value
items no_values = []
items (one_more v vs) = v ∷ items vs

abbrev pub entries : Members → List (Bytes × Value)
entries no_members = []
entries (member k v ms) = (k, v) ∷ entries ms

abbrev pub find_member : Bytes → Members → Option Value
find_member k no_members = none
find_member k (member k' v ms) =
    let later = find_member k ms in if bytes_eq k k' then some v else later

-- `v.get(key)`: nothing of a value that is no object.
unfoldable pub get : Value → Bytes → Option Value
get (object ms) k = find_member k ms
get _ k = none

abbrev pub as_str : Value → Option Bytes
as_str (string s) = some s
as_str _ = none

abbrev pub as_bool : Value → Option Bool
as_bool (boolean b) = some b
as_bool _ = none

abbrev pub as_u64 : Value → Option ℕ
as_u64 (number (pos_int n)) = some n
as_u64 _ = none

abbrev pub as_i64 : Value → Option ℤ
as_i64 (number (pos_int n)) = if ltb n (2 ^ 63) then some (pos n) else none
as_i64 (number (neg_int n)) = some (negsuc n)
as_i64 _ = none

abbrev pub as_array : Value → Option (List Value)
as_array (array vs) = some (items vs)
as_array _ = none

abbrev pub as_object : Value → Option (List (Bytes × Value))
as_object (object ms) = some (entries ms)
as_object _ = none

-- `vec.first()`
abbrev pub first {ℓ} : {A : Type ℓ} → List A → Option A
first [] = none
first (x ∷ xs) = some x

-- The values that a program builds without a float: integers of 64 bits, strings of Unicode, sorted
-- keys, and no more than `n` arrays and objects inside one another.
unfoldable mutual
  pub is_plain : ℕ → Value → Bool
  is_plain n null = true
  is_plain n (boolean b) = true
  is_plain n (number (pos_int k)) = ltb k (2 ^ 64)
  is_plain n (number (neg_int k)) = ltb k (2 ^ 63)
  is_plain n (number (float text)) = false
  is_plain n (string s) = is_utf8 s
  is_plain zero (array vs) = false
  is_plain (suc n) (array vs) = are_plain n vs
  is_plain zero (object ms) = false
  is_plain (suc n) (object ms) = are_sorted n ms

  pub are_plain : ℕ → Values → Bool
  are_plain n no_values = true
  are_plain n (one_more v vs) = is_plain n v && are_plain n vs

  pub are_sorted : ℕ → Members → Bool
  are_sorted n no_members = true
  are_sorted n (member k v no_members) = is_utf8 k && is_plain n v
  are_sorted n (member k v (member k' v' ms)) =
      is_utf8 k && is_plain n v && bytes_less k k' && are_sorted n (member k' v' ms)

-- `serde_json::from_str` to a `Value`, and `to_string` of one.
pub record Serde : Type 0 where
  pub from_str : Bytes → Option Value
  pub to_string : Value → Bytes

-- What the crate documents of values without floats: text is UTF-8, and is read back as the value if it
-- is not nested deeper than the parser's limit.
pub record Laws (s : Serde) : Type 0 where
  pub prints_utf8 : (v : Value) → is_plain 127 v ≡ true → is_utf8 (s.to_string v) ≡ true
  pub reads : (v : Value) → is_plain 127 v ≡ true → s.from_str (s.to_string v) ≡ some v
