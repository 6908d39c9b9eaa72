-- ===== src/Victron/Device/Tests.antt =====
-- Runs of ParseDevices, and its theorems at concrete configurations. Addresses are parsed as they
-- stand if they have three characters; a key is its length, and must not be empty.
use mathlib.Core.List.{mem-cons}
use mathlib.Core.Logic.Or
use litime_timescaledb_inser.Prelude.{
  ℕ, ◌≡◌, refl, List, [], ◌∷◌, Option, none, some, ok, err, ◌==◌, length, if◌then◌else◌,
}
use litime_timescaledb_inser.Strings.{Text, codes, trim_space, to_upper, text_eq}
use litime_timescaledb_inser.Maps.{Map, lookup, insert}
use litime_timescaledb_inser.Victron.Device.{Device, orphaned_key, parse_devices}
use litime_timescaledb_inser.Victron.Device.Config.{padded_id_rejected}

abbrev parse_address : Text → Option Text
parse_address s = if length s == 3 then some s else none

abbrev parse_key : Text → Option ℕ
parse_key [] = none
parse_key (c ∷ s) = some (length (c ∷ s))

abbrev addresses : Map Text
addresses = (codes "solar", codes " a:1") ∷ (codes "shunt", codes "b:2") ∷ []

abbrev two_keys : Map Text
two_keys = (codes "shunt", codes "abcd ") ∷ (codes "solar", codes "ef") ∷ []

abbrev devices : List (Device ℕ)
devices =
    record { id = codes "shunt"; address = codes "B:2"; key = 4 }
    ∷ record { id = codes "solar"; address = codes "A:1"; key = 2 }
    ∷ []

-- The padded ID of the second entry, with its key under the trimmed ID: no key fits.
abbrev padded : Map Text
padded = (codes "solar", codes "a:1") ∷ (codes " shunt", codes "b:2") ∷ []

padded_orphan :
    parse_devices (λ c. c) parse_address (λ a. a) parse_key padded two_keys
    ≡ err (orphaned_key (codes "shunt"))
unfolding parse_devices trim_space to_upper text_eq lookup insert
padded_orphan = refl

padded_missing : lookup (trim_space (codes " shunt")) padded ≡ none
unfolding trim_space text_eq lookup
padded_missing = refl

padded_id_rejected_example :
    ¬ (parse_devices (λ c. c) parse_address (λ a. a) parse_key padded two_keys ≡ ok devices)
padded_id_rejected_example =
    padded_id_rejected (λ c. c) parse_address (λ a. a) parse_key (codes "solar", codes "a:1")
      ((codes " shunt", codes "b:2") ∷ []) two_keys devices (codes " shunt") (codes "b:2")
      (mem-cons.1 (Or.inr (mem-cons.1 (Or.inl refl)))) padded_missing
