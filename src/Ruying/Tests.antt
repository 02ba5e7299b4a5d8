-- ===== src/Ruying/Tests.antt =====
-- Runs of the 8904 frame code, and its theorems at concrete inputs.
use pcsuite_rs.Base.{
  ℕ, ◌+◌, ◌^◌, ◌≤◌, ◌<◌, ◌≡◌, ◌↔◌, refl, arith, [], ◌∷◌, ◌++◌, length, replicate, take,
}
use pcsuite_rs.Base.Wire.{Bytes, to_be, from_be}
use pcsuite_rs.Base.Outcome.{ok, panic}
use pcsuite_rs.Ruying.{RuyingFrame, build, frame, need_more, invalid, parse, parse_inner}
use pcsuite_rs.Ruying.RoundTrip.{IsWellFormed, parse-build}
use pcsuite_rs.Ruying.Partial.{parse-prefix, parse-panics}
use pcsuite_rs.Ruying.Sound.{parse_sound}

abbrev sample : RuyingFrame
sample = record {
  version = 1;
  field_a = 65 ∷ 66 ∷ 67 ∷ 68 ∷ 69 ∷ 70 ∷ [];
  field_b = 49 ∷ 50 ∷ 51 ∷ 52 ∷ 53 ∷ 54 ∷ [];
  byte_c = 1;
  byte_d = 8;
  field_e = replicate 11 7;
  cipher = 1 ∷ 2 ∷ 3 ∷ [];
}

sample-IsWellFormed : IsWellFormed sample
sample-IsWellFormed = omega arith

abbrev sample_wire : Bytes
sample_wire =
    0 ∷ 0 ∷ 0 ∷ 0 ∷ 0 ∷ 0 ∷ 0 ∷ 33 ∷ 1 ∷ 65 ∷ 66 ∷ 67 ∷ 68 ∷ 69 ∷ 70 ∷ 49 ∷ 50 ∷ 51 ∷ 52 ∷ 53 ∷ 54
    ∷ 1 ∷ 8 ∷ 7 ∷ 7 ∷ 7 ∷ 7 ∷ 7 ∷ 7 ∷ 7 ∷ 7 ∷ 7 ∷ 7 ∷ 7 ∷ 0 ∷ 0 ∷ 0 ∷ 3 ∷ 1 ∷ 2 ∷ 3 ∷ []

build-sample : build sample ≡ sample_wire
unfolding build to_be
build-sample = refl

parse-sample_wire : parse sample_wire ≡ ok (frame sample 41)
unfolding parse parse_inner from_be
parse-sample_wire = refl

bad_version : parse (0 ∷ 0 ∷ 0 ∷ 0 ∷ 0 ∷ 0 ∷ 0 ∷ 30 ∷ 2 ∷ replicate 29 0) ≡ ok invalid
unfolding parse parse_inner from_be
bad_version = refl

huge_prefix : parse (replicate 8 255) ≡ panic
unfolding parse parse_inner from_be
huge_prefix = refl

parse-build_example : parse (build sample ++ (9 ∷ [])) ≡ ok (frame sample (length (build sample)))
parse-build_example = parse-build sample sample-IsWellFormed (9 ∷ [])

parse-prefix_example :
    (n : ℕ) × (parse (take 40 sample_wire) ≡ ok (need_more n))
    × (40 < n)
    × (n ≤ length (build sample))
parse-prefix_example =
    parse-prefix sample (take 40 sample_wire) [] 3 sample-IsWellFormed build-sample

parse_sound_example : IsWellFormed sample × (build sample ≡ take 41 sample_wire) × (41 ≤ 41)
parse_sound_example = parse_sound sample_wire (omega arith) parse-sample_wire

parse-panics_example :
    (parse (replicate 8 255) ≡ panic)
    ↔ ((8 ≤ 8) × (8 < 38) × (2 ^ 64 ≤ from_be (replicate 8 255) + 8))
parse-panics_example = parse-panics (replicate 8 255) (omega arith)
