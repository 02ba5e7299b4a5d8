-- ===== src/Json/Toy.antt =====
-- An instance of serde_json's parser and printer that meets the laws: a value is written with the
-- number of its parts in front, every number as its remainder by 128 and a unary quotient.
use pcsuite_rs.Base.{
  ℕ, zero, suc, ◌+◌, ◌*◌, ◌/◌, ◌%◌, ◌<◌, ◌≤◌, ◌≡◌, refl, true, false, [], ◌∷◌, Option, none, some,
  arith, All, ◌==◌, if◌then◌else◌, length,
}
use pcsuite_rs.Base.Wire.{Bytes}
use pcsuite_rs.Base.Maybe.{◌>>=◌}
use pcsuite_rs.Base.Utf8.{is_utf8-ascii}
use pcsuite_rs.Json.{
  Value, null, boolean, number, string, array, object, Values, no_values, one_more, Members,
  no_members, member, pos_int, neg_int, float, Serde, Laws,
}

abbrev put_unary : ℕ → Bytes → Bytes
put_unary zero rest = 0 ∷ rest
put_unary (suc n) rest = 1 ∷ put_unary n rest

abbrev put_nat : ℕ → Bytes → Bytes
put_nat n rest = n % 128 ∷ put_unary (n / 128) rest

abbrev put_bytes : Bytes → Bytes → Bytes
put_bytes [] rest = 0 ∷ rest
put_bytes (b ∷ bs) rest = 1 ∷ put_nat b (put_bytes bs rest)

unfoldable mutual
  pub put_value : Value → Bytes → Bytes
  put_value null rest = 0 ∷ rest
  put_value (boolean true) rest = 1 ∷ rest
  put_value (boolean false) rest = 2 ∷ rest
  put_value (number (pos_int n)) rest = 3 ∷ put_nat n rest
  put_value (number (neg_int n)) rest = 4 ∷ put_nat n rest
  put_value (number (float text)) rest = 5 ∷ put_bytes text rest
  put_value (string s) rest = 6 ∷ put_bytes s rest
  put_value (array vs) rest = 7 ∷ put_values vs rest
  put_value (object ms) rest = 8 ∷ put_members ms rest

  put_values : Values → Bytes → Bytes
  put_values no_values rest = 0 ∷ rest
  put_values (one_more v vs) rest = 1 ∷ put_value v (put_values vs rest)

  put_members : Members → Bytes → Bytes
  put_members no_members rest = 0 ∷ rest
  put_members (member k v ms) rest = 1 ∷ put_bytes k (put_value v (put_members ms rest))

unfoldable mutual
  pub size : Value → ℕ
  size (number (float text)) = 1 + length text
  size (string s) = 1 + length s
  size (array vs) = 1 + size_values vs
  size (object ms) = 1 + size_members ms
  size _ = 1

  size_values : Values → ℕ
  size_values no_values = 1
  size_values (one_more v vs) = 1 + size v + size_values vs

  size_members : Members → ℕ
  size_members no_members = 1
  size_members (member k v ms) = 1 + length k + size v + size_members ms

take_unary : Bytes → Option (ℕ × Bytes)
take_unary [] = none
take_unary (b ∷ bs) =
    let more = (do (n, rest) ← take_unary bs; some (suc n, rest)) in
    if b == 0 then some (0, bs) else more

take_nat : Bytes → Option (ℕ × Bytes)
take_nat [] = none
take_nat (b ∷ bs) = do (n, rest) ← take_unary bs; some (n * 128 + b, rest)

take_bytes : ℕ → Bytes → Option (Bytes × Bytes)
take_bytes fuel [] = none
take_bytes zero (b ∷ bs) = if b == 0 then some ([], bs) else none
take_bytes (suc fuel) (b ∷ bs) =
    if b == 0
    then some ([], bs)
    else do (n, rest) ← take_nat bs; (ns, rest') ← take_bytes fuel rest; some (n ∷ ns, rest')

mutual
  take_value : ℕ → Bytes → Option (Value × Bytes)
  take_value zero bs = none
  take_value (suc fuel) [] = none
  take_value (suc fuel) (b ∷ bs) =
      if b == 0
      then some (null, bs)
      else if b == 1
      then some (boolean true, bs)
      else if b == 2
      then some (boolean false, bs)
      else if b == 3
      then (do (n, rest) ← take_nat bs; some (number (pos_int n), rest))
      else if b == 4
      then (do (n, rest) ← take_nat bs; some (number (neg_int n), rest))
      else if b == 5
      then (do (s, rest) ← take_bytes fuel bs; some (number (float s), rest))
      else if b == 6
      then (do (s, rest) ← take_bytes fuel bs; some (string s, rest))
      else if b == 7
      then (do (vs, rest) ← take_values fuel bs; some (array vs, rest))
      else do (ms, rest) ← take_members fuel bs; some (object ms, rest)

  take_values : ℕ → Bytes → Option (Values × Bytes)
  take_values zero bs = none
  take_values (suc fuel) [] = none
  take_values (suc fuel) (b ∷ bs) = if b == 0 then some (no_values, bs) else do
    (v, rest) ← take_value fuel bs
    (vs, rest') ← take_values fuel rest
    some (one_more v vs, rest')

  take_members : ℕ → Bytes → Option (Members × Bytes)
  take_members zero bs = none
  take_members (suc fuel) [] = none
  take_members (suc fuel) (b ∷ bs) = if b == 0 then some (no_members, bs) else do
    (k, rest) ← take_bytes fuel bs
    (v, rest') ← take_value fuel rest
    (ms, rest'') ← take_members fuel rest'
    some (member k v ms, rest'')

take_unary-put : (n : ℕ) (rest : Bytes) → take_unary (put_unary n rest) ≡ some (n, rest)
unfolding take_unary
take_unary-put zero rest = refl
take_unary-put (suc n) rest = rw (take_unary-put n rest)

take_nat-put : (n : ℕ) (rest : Bytes) → take_nat (put_nat n rest) ≡ some (n, rest)
unfolding take_nat
take_nat-put n rest =
    let e : n / 128 * 128 + n % 128 ≡ n = omega arith in rw (take_unary-put (n / 128) rest, e)

take_bytes-put :
    (fuel : ℕ) (s rest : Bytes)
    → length s ≤ fuel
    → take_bytes fuel (put_bytes s rest) ≡ some (s, rest)
unfolding take_bytes
take_bytes-put zero [] rest h = refl
take_bytes-put (suc fuel) [] rest h = refl
take_bytes-put zero (b ∷ s) rest h = absurd (omega arith)
take_bytes-put (suc fuel) (b ∷ s) rest h =
    rw (take_nat-put b (put_bytes s rest), take_bytes-put fuel s rest (omega arith))

mutual
  unfolding take_value take_values take_members put_value put_values put_members size size_values
      size_members

  take_value-put :
      (fuel : ℕ) (v : Value) (rest : Bytes)
      → size v ≤ fuel
      → take_value fuel (put_value v rest) ≡ some (v, rest)
  take_value-put zero null rest h = absurd (omega arith)
  take_value-put zero (boolean b) rest h = absurd (omega arith)
  take_value-put zero (number (pos_int n)) rest h = absurd (omega arith)
  take_value-put zero (number (neg_int n)) rest h = absurd (omega arith)
  take_value-put zero (number (float s)) rest h = absurd (omega arith)
  take_value-put zero (string s) rest h = absurd (omega arith)
  take_value-put zero (array vs) rest h = absurd (omega arith)
  take_value-put zero (object ms) rest h = absurd (omega arith)
  take_value-put (suc fuel) null rest h = refl
  take_value-put (suc fuel) (boolean true) rest h = refl
  take_value-put (suc fuel) (boolean false) rest h = refl
  take_value-put (suc fuel) (number (pos_int n)) rest h = rw (take_nat-put n rest)
  take_value-put (suc fuel) (number (neg_int n)) rest h = rw (take_nat-put n rest)
  take_value-put (suc fuel) (number (float s)) rest h =
      rw (take_bytes-put fuel s rest (omega arith))
  take_value-put (suc fuel) (string s) rest h = rw (take_bytes-put fuel s rest (omega arith))
  take_value-put (suc fuel) (array vs) rest h = rw (take_values-put fuel vs rest (omega arith))
  take_value-put (suc fuel) (object ms) rest h = rw (take_members-put fuel ms rest (omega arith))

  take_values-put :
      (fuel : ℕ) (vs : Values) (rest : Bytes)
      → size_values vs ≤ fuel
      → take_values fuel (put_values vs rest) ≡ some (vs, rest)
  take_values-put zero no_values rest h = absurd (omega arith)
  take_values-put zero (one_more v vs) rest h = absurd (omega arith)
  take_values-put (suc fuel) no_values rest h = refl
  take_values-put (suc fuel) (one_more v vs) rest h = rw (
    take_value-put fuel v (put_values vs rest) (omega arith),
    take_values-put fuel vs rest (omega arith),
  )

  take_members-put :
      (fuel : ℕ) (ms : Members) (rest : Bytes)
      → size_members ms ≤ fuel
      → take_members fuel (put_members ms rest) ≡ some (ms, rest)
  take_members-put zero no_members rest h = absurd (omega arith)
  take_members-put zero (member k v ms) rest h = absurd (omega arith)
  take_members-put (suc fuel) no_members rest h = refl
  take_members-put (suc fuel) (member k v ms) rest h = rw (
    take_bytes-put fuel k (put_value v (put_members ms rest)) (omega arith),
    take_value-put fuel v (put_members ms rest) (omega arith),
    take_members-put fuel ms rest (omega arith),
  )

abbrev Ascii : Bytes → Type 0
Ascii = All (λ b. b < 0x80)

put_unary-Ascii : (n : ℕ) (rest : Bytes) → Ascii rest → Ascii (put_unary n rest)
put_unary-Ascii zero rest h = (omega arith, h)
put_unary-Ascii (suc n) rest h = (omega arith, put_unary-Ascii n rest h)

put_nat-Ascii : (n : ℕ) (rest : Bytes) → Ascii rest → Ascii (put_nat n rest)
put_nat-Ascii n rest h = (omega arith, put_unary-Ascii (n / 128) rest h)

put_bytes-Ascii : (s rest : Bytes) → Ascii rest → Ascii (put_bytes s rest)
put_bytes-Ascii [] rest h = (omega arith, h)
put_bytes-Ascii (b ∷ s) rest h = (omega arith, put_nat-Ascii b _ (put_bytes-Ascii s rest h))

mutual
  unfolding put_value put_values put_members

  put_value-Ascii : (v : Value) (rest : Bytes) → Ascii rest → Ascii (put_value v rest)
  put_value-Ascii null rest h = (omega arith, h)
  put_value-Ascii (boolean true) rest h = (omega arith, h)
  put_value-Ascii (boolean false) rest h = (omega arith, h)
  put_value-Ascii (number (pos_int n)) rest h = (omega arith, put_nat-Ascii n rest h)
  put_value-Ascii (number (neg_int n)) rest h = (omega arith, put_nat-Ascii n rest h)
  put_value-Ascii (number (float s)) rest h = (omega arith, put_bytes-Ascii s rest h)
  put_value-Ascii (string s) rest h = (omega arith, put_bytes-Ascii s rest h)
  put_value-Ascii (array vs) rest h = (omega arith, put_values-Ascii vs rest h)
  put_value-Ascii (object ms) rest h = (omega arith, put_members-Ascii ms rest h)

  put_values-Ascii : (vs : Values) (rest : Bytes) → Ascii rest → Ascii (put_values vs rest)
  put_values-Ascii no_values rest h = (omega arith, h)
  put_values-Ascii (one_more v vs) rest h =
      (omega arith, put_value-Ascii v _ (put_values-Ascii vs rest h))

  put_members-Ascii : (ms : Members) (rest : Bytes) → Ascii rest → Ascii (put_members ms rest)
  put_members-Ascii no_members rest h = (omega arith, h)
  put_members-Ascii (member k v ms) rest h =
      (omega arith, put_bytes-Ascii k _ (put_value-Ascii v _ (put_members-Ascii ms rest h)))

unfoldable pub toy_to_string : Value → Bytes
toy_to_string v = put_unary (size v) (put_value v [])

pub toy_from_str : Bytes → Option Value
toy_from_str bs = do (fuel, rest) ← take_unary bs; (v, end) ← take_value fuel rest; some v

unfoldable pub toy : Serde
toy = record { from_str = toy_from_str; to_string = toy_to_string }

toy_reads : (v : Value) → toy_from_str (toy_to_string v) ≡ some v
unfolding toy_from_str toy_to_string
toy_reads v =
    rw (take_unary-put (size v) (put_value v []), take_value-put (size v) v [] (omega arith))

pub toy-Laws : Laws toy
unfolding toy
toy-Laws = record {
  prints_utf8 = λ v h.
      unfold toy_to_string in
      is_utf8-ascii _ (put_unary-Ascii (size v) _ (put_value-Ascii v [] tt));
  reads = λ v h. toy_reads v;
}
