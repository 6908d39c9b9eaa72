-- ===== src/Service/Loops.antt =====
-- cmd/litime-timescaledb-inserter: the loop over the readings of main.go and the one of victron.go,
-- which run at the same time and write to one database.
use litime_timescaledb_inser.Prelude.{Bool, true, false, List, [], ◌∷◌, some}
use litime_timescaledb_inser.Litime.Queue as Queue
use litime_timescaledb_inser.Litime.Metrics as BatteryMetrics
use litime_timescaledb_inser.Victron.Metrics as DeviceMetrics
use litime_timescaledb_inser.Victron.Collector.{Library, LibReading}
use litime_timescaledb_inser.Timescale.{Value, Statement, BatteryData}
use litime_timescaledb_inser.Service.{Payloads, insert, insert_reading, drain}
pub mod Counts

-- The database that the two loops write to, and what they read of a reading. `turns` is the order
-- in which they take turns until main has the manager's result: `true` is an insert of main's loop,
-- `false` one of the loop that startVictron starts.
pub record Store (lib : Library) (F D Data : Type 0) : Type 1 where
  pub exec : D → Statement → List (Value F) → D × Bool
  pub fields : BatteryData F Data
  pub payloads : Payloads F lib.SolarCharger lib.BatteryMonitor
  pub empty : D
  pub turns : List Bool

-- The database, and what the two loops have reported to their metrics.
pub record Written (D : Type 0) : Type 0 where
  pub db : D
  pub batteries : BatteryMetrics.Metrics
  pub devices : DeviceMetrics.Metrics

module _ {lib : Library} {F D Data : Type 0} (store : Store lib F D Data) where
  abbrev pub nothing : Written D
  nothing = record { db = store.empty; batteries = some []; devices = some [] }

  abbrev pub write : Written D → Queue.Reading Data → Written D
  write s reading =
      let (db, metrics) = insert store.exec store.fields (s.db, s.batteries) reading in
      record s { db = db; batteries = metrics }

  abbrev pub write_device : Written D → LibReading lib → Written D
  write_device s reading =
      let (db, metrics) = insert_reading store.exec store.payloads (s.db, s.devices) reading in
      record s { db = db; devices = metrics }

  -- Both loops until main has the manager's result, which is behind the end of main's loop: what is
  -- written, and the device readings that are not.
  unfoldable pub write_all :
      List Bool
      → List (Queue.Reading Data)
      → List (LibReading lib)
      → Written D
      → Written D × List (LibReading lib)
  unfolding insert insert_reading drain
  write_all [] readings device_readings s = (drain write readings s, device_readings)
  write_all (true ∷ turns) [] device_readings s = write_all turns [] device_readings s
  write_all (true ∷ turns) (r ∷ rs) device_readings s =
      write_all turns rs device_readings (write s r)
  write_all (false ∷ turns) readings [] s = write_all turns readings [] s
  write_all (false ∷ turns) readings (d ∷ ds) s = write_all turns readings ds (write_device s d)
