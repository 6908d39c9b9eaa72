-- ===== src/Program/Accounts.antt =====
-- What has become of the readings when the process ends.
use litime_timescaledb_inser.Prelude.{
  ◌≡◌, refl, ◌⊎◌, inl, inr, List, ◌++◌, Option, none, some, ok, length, All,
}
use litime_timescaledb_inser.Config.{Config}
use litime_timescaledb_inser.Effects.{Frame}
use litime_timescaledb_inser.Litime.Battery.{Battery, parse_batteries}
use litime_timescaledb_inser.Litime.Queue as Queue
use litime_timescaledb_inser.Victron.Device.{Device, parse_devices}
use litime_timescaledb_inser.Victron.Collector.{Library, Bytes, LibReading}
use litime_timescaledb_inser.Victron.Collector.Scan.{Collector}
use litime_timescaledb_inser.Service.Payload.{IsFilled}
use litime_timescaledb_inser.Service.Loops.{Store, Written, nothing, write_all}
use litime_timescaledb_inser.Program.{World, Started, Exit, victron_outcome, finish, serve}
use litime_timescaledb_inser.Program.Settings.{ManagerFor, Watches}
use litime_timescaledb_inser.Service.Loops.Counts.{Counts, Shared, write_all-Shared, Shared-ended}

module _ {lib : Library} {E Float Address Adapter Data PoolConfig Pool H : Type 0}
    (w : World lib E Float Address Adapter Data PoolConfig Pool H) where
  -- The manager and the collector are those of the configuration.
  pub record Configured (started : Started lib Adapter Data Pool) : Type 0 where
    pub config : Config Float
    pub batteries : List Battery
    pub devices : List (Device Bytes)
    pub configured : w.parsed ≡ ok config
    pub batteries_parsed :
        parse_batteries w.parse_address config.litime_batteries config.litime_battery_bluetooth_name
        ≡ ok batteries
    pub devices_parsed :
        parse_devices w.upper_above w.parse_address w.address_string w.parse_key
          config.victron_devices config.victron_keys
        ≡ ok devices
    pub manages : ManagerFor w config batteries started.manager
    pub watches : Watches config started.manager.adapter devices started.collector
    pub counted : started.victron_devices ≡ length devices

  -- Every reading that the collector publishes has exactly the payload of its record type.
  abbrev pub PublishesFilled : Type 0
  PublishesFilled =
      (k : Collector Adapter (LibReading lib)) → All (IsFilled lib) (w.run_collector k).0

  pub outcome-IsFilled :
      PublishesFilled
      → (o : Option (Collector Adapter (LibReading lib)))
      → All (IsFilled lib) (victron_outcome w o).0
  outcome-IsFilled f none = tt
  outcome-IsFilled f (some k) = f k

module _ {lib : Library} {E Float Address Adapter Data PoolConfig Pool H F D : Type 0}
    (w : World lib E Float Address Adapter Data PoolConfig Pool H)
    (store : Store lib F D Data) where
  -- One insert is counted, as done or as failed, for each of these readings, and no other.
  abbrev pub Inserted : List (Queue.Reading Data) → List (LibReading lib) → Exit D → Type 0
  Inserted readings device_readings x =
      Counts store readings device_readings (nothing store) x.written

  -- How the two sources have ended, and what of theirs is inserted.
  abbrev pub Served :
      List (Queue.Reading Data) × Option E → List (LibReading lib) × Option E → Exit D → Type 0
  Served (readings, failed) (device_readings, device_failed) x =
      ((failed ≡ none)
        × (device_failed ≡ none)
        × (x.code ≡ 0)
        × Inserted readings device_readings x)
      ⊎ ((failed ≡ none)
          × ((e : E) × (device_failed ≡ some e))
          × (x.code ≡ 1)
          × Inserted readings device_readings x)
      ⊎ (((e : E) × (failed ≡ some e))
          × (x.code ≡ 1)
          × ((done : List (LibReading lib)) × (lost : List (LibReading lib)) × (device_readings
                ≡ done ++ lost)
              × Inserted readings done x))

  abbrev pub IsAccounted : Exit D → Type 0
  IsAccounted x =
      ((x.code ≡ 1) × (x.written ≡ nothing store))
      ⊎ ((started : Started lib Adapter Data Pool) × Configured w started
          × Served (w.run_manager started.manager) (victron_outcome w started.collector) x)

  finish-Served :
      (t : Frame) (rs : List (Queue.Reading Data)) (failed : Option E) (ds : List (LibReading lib))
      (device_failed : Option E) (r : Written D × List (LibReading lib))
      → Shared store rs ds (nothing store) r
      → Served (rs, failed) (ds, device_failed) (finish w store t failed device_failed r)
  unfolding finish
  finish-Served t rs none ds none r k =
      inl (refl, refl, refl, Shared-ended store rs ds (nothing store) r k)
  finish-Served t rs none ds (some e) r k =
      inr (inl (refl, (e, refl), refl, Shared-ended store rs ds (nothing store) r k))
  finish-Served t rs (some e) ds f r k =
      inr (inr ((e, refl), refl, (k.done, r.1, k.split, k.counts)))

  pub serve-Served :
      (t : Frame) (m : List (Queue.Reading Data) × Option E) (v : List (LibReading lib) × Option E)
      → All (IsFilled lib) v.0
      → Served m v (serve w store t m v)
  unfolding serve
  serve-Served t (rs, failed) (ds, device_failed) f =
      finish-Served t rs failed ds device_failed (write_all store store.turns rs ds (nothing store))
        (write_all-Shared store store.turns rs ds (nothing store) ((λ h. cc), (λ h. cc)) f)
