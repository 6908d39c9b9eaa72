-- ===== src/Victron/Collector/Run/Tests.antt =====
-- The theorem on Run at a concrete library and a run of two scans that is then cancelled.
use litime_timescaledb_inser.Prelude.{ℕ, ◌≡◌, refl, pos, false, [], ◌∷◌, none, some, ok}
use litime_timescaledb_inser.Strings.{Text, codes}
use litime_timescaledb_inser.Maps.{Map}
use litime_timescaledb_inser.Victron.Device.{Device}
use litime_timescaledb_inser.Victron.Collector.{Library, Bytes, State}
use litime_timescaledb_inser.Victron.Collector.Run.{ScanRound, fired, stopped, run}
use litime_timescaledb_inser.Victron.Collector.Run.Returns.{is_stopped, run_returns}

-- A library to which every record is a solar charger's.
abbrev lib : Library
lib = record {
  Record = ℕ;
  SolarCharger = ℕ;
  BatteryMonitor = ℕ;
  company_id = 737;
  record_solar_charger = 1;
  record_battery_monitor = 2;
  parse_record = λ bytes. some 1;
  record_type = λ r. r;
  model_id = λ r. 100;
  type_string = λ t. [];
  decrypt = λ r key. some key;
  model_name = λ m. [];
  parse_solar_charger = λ p. some 5;
  parse_battery_monitor = λ p. none;
}

abbrev solar : Device Bytes
solar = record { id = codes "solar"; address = codes "A:1"; key = 1 ∷ [] }

abbrev by_address : Map (Device Bytes)
by_address = (codes "A:1", solar) ∷ []

-- The first scan finds the charger, the second one fails.
abbrev finds : ScanRound Text
finds = record {
  scan = λ targets.
      some (record { address = codes "A:1"; manufacturer_data = λ c. some (1 ∷ []) } ∷ []);
  is_over = false;
  clock = λ n. pos n;
}

abbrev fails : ScanRound Text
fails = record finds { scan = λ targets. none }

abbrev fresh : State lib
fresh = record {
  readings = record { capacity = 1; items = []; closed = false };
  closed = false;
  metrics = some [];
}

run_returns_example :
    (t : State lib) × (run lib
        (λ c. c)
        (λ s. some s)
        (λ a. a)
        (solar ∷ [])
        by_address
        finds
        (fired fails ∷ stopped ∷ [])
        fresh
      ≡ ok (t, is_stopped (fired fails ∷ stopped ∷ [])))
    × (t.closed ≡ is_stopped (fired fails ∷ stopped ∷ []))
    × (t.readings.closed ≡ is_stopped (fired fails ∷ stopped ∷ []))
run_returns_example =
    run_returns lib (λ c. c) (λ s. some s) (λ a. a) (solar ∷ []) by_address finds
      (fired fails ∷ stopped ∷ []) fresh (refl, refl)
