-- ===== src/Config/Tests.antt =====
-- Runs of the configuration, and its theorem at a concrete input.
use pcsuite_rs.Base.{◌≡◌, refl, List, [], ◌∷◌, none, some, bytes_eq}
use pcsuite_rs.Base.Wire.{Bytes, codes}
use pcsuite_rs.Base.Text.{trim, trim_start, trim_start_loop, trim_end, white_prefix}
use pcsuite_rs.Json.{json_object, string, get}
use pcsuite_rs.Config.{
  serverless, vivo_account, mode_parse, mode_as_str, load, UserConfig, default_stored_seed,
}
use pcsuite_rs.Config.Seeds.{after_calls, default_stored_seed-last_set}

modes_read :
    (mode_parse (codes " CLOUD ") ≡ vivo_account)
    × (mode_parse (codes "vivoo") ≡ serverless)
    × (mode_parse (mode_as_str vivo_account) ≡ vivo_account)
unfolding mode_parse trim trim_start trim_start_loop trim_end white_prefix bytes_eq
modes_read = (refl, refl, refl)

abbrev configured : UserConfig
unfolding load mode_parse
configured =
    load (λ k. none)
      (json_object
        ((codes "seeds", json_object ((codes "10.0.0.2", string (codes "s0")) ∷ [])) ∷ []))
      none

abbrev two_calls : List (Bytes × Bytes)
two_calls = (codes "10.0.0.2", []) ∷ (codes "10.0.0.2", codes "s1") ∷ []

default_stored_seed-last_set_example :
    default_stored_seed configured (after_calls two_calls) (codes "10.0.0.2") ≡ some (codes "s0")
unfolding load get bytes_eq configured
default_stored_seed-last_set_example =
    default_stored_seed-last_set configured two_calls (codes "10.0.0.2")
