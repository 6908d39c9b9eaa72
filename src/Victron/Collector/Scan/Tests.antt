-- ===== src/Victron/Collector/Scan/Tests.antt =====
-- A run of NewCollector, and its theorem at concrete options. An adapter is a number.
use litime_timescaledb_inser.Prelude.{ℕ, ◌*◌, ◌≡◌, refl, false, [], ◌∷◌, some, ok, pos}
use litime_timescaledb_inser.Strings.{codes}
use litime_timescaledb_inser.Durations.{second}
use litime_timescaledb_inser.Channel.{make}
use litime_timescaledb_inser.Victron.Collector.Scan.{
  CollectorOptions, Collector, index_devices, new_collector,
}
use litime_timescaledb_inser.Victron.Collector.Scan.Settings.{IsSound, new_collector-IsSound}

abbrev opts : CollectorOptions ℕ
opts = record {
  devices = record { id = codes "solar"; address = codes "A:1"; key = [] } ∷ [];
  scan_interval = pos 0;
  scan_duration = pos (3 * second);
  buffer_size = pos 0;
  adapter = some 7;
}

abbrev collector : Collector ℕ ℕ
collector = record {
  devices = opts.devices;
  by_address = index_devices opts.devices [];
  scan_interval = pos (60 * second);
  scan_duration = pos (3 * second);
  adapter = 7;
  readings = make 64;
  closed = false;
}

builds : new_collector opts ≡ ok collector
unfolding new_collector
builds = refl

new_collector-IsSound_example : IsSound opts collector
new_collector-IsSound_example = new_collector-IsSound opts collector builds
