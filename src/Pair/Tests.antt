-- ===== src/Pair/Tests.antt =====
-- Runs of the pairing listener, and its theorem at a concrete input.
use pcsuite_rs.Base.{
  ℕ, ◌<◌, ◌≤◌, ◌≡◌, refl, Bool, true, not, ◌&&◌, ◌==◌, ltb, [], ◌∷◌, some, bytes_eq, arith, All,
}
use pcsuite_rs.Base.Wire.{Bytes, codes, position_of, position_from, starts_with}
use pcsuite_rs.Base.Result.{done}
use pcsuite_rs.Base.Streams.{got}
use pcsuite_rs.Base.Text.{
  split, split_loop, split_once, split_whitespace, words_loop, white_prefix, lines,
}
use pcsuite_rs.Base.Text.Clear.{IsClear}
use pcsuite_rs.Base.Utf8.{from_utf8_lossy, is_utf8-ascii}
use pcsuite_rs.Pair.{param}
use pcsuite_rs.Pair.{
  pct, pct_decode, decode_bytes, parse_query, read_request, on_request, wait_for_phone, connection,
  tick, ok_200, not_found,
}
use pcsuite_rs.Pair.Query.{IsParam, print_query, last_value, param-parse_query}

-- What is no escape is left as it is, and a plus is a space.
decoded : decode_bytes (codes "a%20+%4") ≡ codes "a  %4"
unfolding decode_bytes
decoded = refl

encoded : pct (codes "xvan's") ≡ codes "xvan%27s"
unfolding pct
encoded = refl

abbrev a_ip : Bytes × Bytes
a_ip = (codes "phoneIp", codes "10.0.0.2")

abbrev a_name : Bytes × Bytes
a_name = (codes "deviceName", codes "iQOO 15")

abbrev lacks : ℕ → Bytes → Bool
lacks c [] = true
lacks c (b ∷ bs) = not (b == c) && lacks c bs

lacks-IsClear : (c : ℕ) (bs : Bytes) → lacks c bs ≡ true → IsClear c bs
lacks-IsClear c [] h = tt
lacks-IsClear c (b ∷ bs) h =
    (λ e. absurd (ground (arith, h, e)), lacks-IsClear c bs (ground (arith, h)))

abbrev is_ascii : Bytes → Bool
is_ascii [] = true
is_ascii (b ∷ bs) = ltb b 128 && is_ascii bs

ascii_small : (n : ℕ) (bs : Bytes) → 128 ≤ n → is_ascii bs ≡ true → All (λ c. c < n) bs
ascii_small n [] le h = tt
ascii_small n (b ∷ bs) le h = (ground (arith, h, le), ascii_small n bs le (ground (arith, h)))

ascii-IsParam :
    (k v : Bytes) → lacks b'&' k ≡ true → lacks b'=' k ≡ true → is_ascii v ≡ true → IsParam (k, v)
ascii-IsParam k v a e h = record {
  no_amp = lacks-IsClear b'&' k a;
  no_equals = lacks-IsClear b'=' k e;
  bytes = ascii_small 256 v (omega arith) h;
  text = is_utf8-ascii v (ascii_small 128 v (omega arith) h);
}

-- The second value of a key replaces the first.
param-parse_query_example :
    param
      (codes "deviceName")
      (parse_query (print_query a_name (a_ip ∷ (codes "deviceName", codes "X") ∷ [])))
    ≡ last_value (codes "deviceName") (a_name ∷ a_ip ∷ (codes "deviceName", codes "X") ∷ [])
param-parse_query_example =
    param-parse_query (codes "deviceName") a_name (a_ip ∷ (codes "deviceName", codes "X") ∷ [])
      (ascii-IsParam (codes "deviceName") (codes "iQOO 15") refl refl refl)
      (
        ascii-IsParam (codes "phoneIp") (codes "10.0.0.2") refl refl refl,
        (ascii-IsParam (codes "deviceName") (codes "X") refl refl refl, tt),
      )

-- A stray request, and then the phone's.
scanned :
    wait_for_phone (
      connection (codes "10.0.0.9") (got (codes "GET / HTTP/1.1\r\n\r\n") ∷ [])
      ∷ tick
      ∷ connection
          (codes "10.0.0.2")
          (got (codes "GET /notifyConnection?bleId=52467a ") ∷ got (codes "x\r\n\r\n") ∷ [])
      ∷ [])
    ≡ (
      not_found ∷ ok_200 ∷ [],
      some (
          done (record {
            phone_ip = codes "10.0.0.2";
            ble_id = codes "52467a";
            device_name = [];
            vivo_account = [];
            device_type = [];
          })),
    )
unfolding wait_for_phone read_request on_request position_of position_from starts_with split
    split_loop split_once split_whitespace words_loop white_prefix lines bytes_eq parse_query
    pct_decode decode_bytes from_utf8_lossy
scanned = refl
