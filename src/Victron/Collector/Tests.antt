-- ===== src/Victron/Collector/Tests.antt =====
-- The collector's theorems at a concrete library: a record is its bytes, its type the first of them,
-- keys and payloads are taken as they are, and addresses are texts.
use litime_timescaledb_inser.Prelude.{
  ℕ, ◌+◌, ◌≡◌, ◌⊎◌, refl, pos, false, List, [], ◌∷◌, Option, none, some, ok, if◌then◌else◌,
}
use litime_timescaledb_inser.Strings.{Text, codes, text_eq}
use litime_timescaledb_inser.Maps.{Map, insert}
use litime_timescaledb_inser.Victron.Device.{Device}
use litime_timescaledb_inser.Victron.Collector.{Library, Bytes, Discovered, State, handle}
use litime_timescaledb_inser.Victron.Collector.Sightings.{Reads, Seen, handle_sees}
use litime_timescaledb_inser.Victron.Collector.Scan.{index_devices, scan_addresses, scan_once}
use litime_timescaledb_inser.Victron.Collector.Missed.{
  configured, missed_of, sighted, scan_once_missed,
}

abbrev first : Bytes → ℕ
first [] = 0
first (b ∷ bs) = b

abbrev some_bytes : Bytes → Option Bytes
some_bytes [] = none
some_bytes (b ∷ bs) = some (b ∷ bs)

abbrev pub lib : Library
lib = record {
  Record = Bytes;
  SolarCharger = Bytes;
  BatteryMonitor = Bytes;
  company_id = 737;
  record_solar_charger = 1;
  record_battery_monitor = 2;
  parse_record = some_bytes;
  record_type = first;
  model_id = λ r. 100;
  type_string = λ t. [];
  decrypt = λ r key. some r;
  model_name = λ m. [];
  parse_solar_charger = λ p. some p;
  parse_battery_monitor = λ p. some p;
}

abbrev pub solar : Device Bytes
solar = record { id = codes "solar"; address = codes "A:1"; key = 1 ∷ [] }

abbrev shunt : Device Bytes
shunt = record { id = codes "shunt"; address = codes "B:2"; key = 2 ∷ [] }

-- A solar charger's advertisement, from an address in lower case.
abbrev pub advert : Discovered Text
advert = record { address = codes "a:1"; manufacturer_data = λ c. some (1 ∷ 9 ∷ []) }

abbrev pub fresh : State lib
fresh = record {
  readings = record { capacity = 1; items = []; closed = false };
  closed = false;
  metrics = some [];
}

handle_sees_example :
    (Reads lib advert × Seen lib solar.id fresh (handle lib fresh solar (pos 5) advert))
    ⊎ ((¬ Reads lib advert) × (handle lib fresh solar (pos 5) advert ≡ ok (fresh, false)))
handle_sees_example = handle_sees lib fresh solar (pos 5) advert refl

abbrev devices : List (Device Bytes)
devices = solar ∷ shunt ∷ []

abbrev by_address : Map (Device Bytes)
by_address = (codes "A:1", solar) ∷ (codes "B:2", shunt) ∷ []

indexes : index_devices devices [] ≡ by_address
unfolding index_devices insert text_eq
indexes = refl

-- The shunt is missed once.
scan_once_missed_example :
    (t : State lib) × (scan_once lib
        (λ c. c)
        (λ s. some s)
        (λ a. a)
        devices
        by_address
        (λ n. pos n)
        (λ targets. some (advert ∷ []))
        false
        fresh
      ≡ ok t)
    × (missed_of (codes "shunt") t.metrics
        ≡ missed_of (codes "shunt") fresh.metrics
          + (if sighted lib (λ c. c) (λ s. some s) (λ a. a) by_address (codes "shunt") (advert ∷ [])
              then 0
              else configured (codes "shunt") devices))
unfolding scan_addresses
scan_once_missed_example =
    scan_once_missed lib (λ c. c) (λ s. some s) (λ a. a) by_address devices (λ n. pos n)
      (codes "shunt") (λ targets. some (advert ∷ [])) false fresh (advert ∷ []) refl (λ h. cc) refl
      refl
