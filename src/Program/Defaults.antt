-- ===== src/Program/Defaults.antt =====
-- The defaults of the configuration pass the checks of NewManager and NewCollector.
use litime_timescaledb_inser.Prelude.{◌≡◌, refl, ◌∷◌, List, ok, some, ℤ}
use litime_timescaledb_inser.Durations.{Duration}
use litime_timescaledb_inser.Strings.{Text}
use litime_timescaledb_inser.Config.{Config, defaults}
use litime_timescaledb_inser.Litime.Battery.{Battery}
use litime_timescaledb_inser.Litime.Adapter.{Platform, resolve_adapter}
use litime_timescaledb_inser.Litime.Manager.{
  Manager, with_defaults, new_manager, check_timeouts, build,
}
use litime_timescaledb_inser.Victron.Device.{Device}
use litime_timescaledb_inser.Victron.Collector.{Bytes}
use litime_timescaledb_inser.Victron.Collector.Scan as Scan
use litime_timescaledb_inser.Program.{manager_options, collector_options}

-- The four settings of time that the two constructors check are the defaults, as when their
-- variables are unset.
pub record KeepsDefaults {Float : Type 0} (c : Config Float) : Type 0 where
  pub scrape_interval : c.scrape_interval ≡ (defaults c.tracing_sample_rate).scrape_interval
  pub stale_timeout : c.stale_timeout ≡ (defaults c.tracing_sample_rate).stale_timeout
  pub victron_scan_interval :
      c.victron_scan_interval ≡ (defaults c.tracing_sample_rate).victron_scan_interval
  pub victron_scan_duration :
      c.victron_scan_duration ≡ (defaults c.tracing_sample_rate).victron_scan_duration

module _ {Adapter Data : Type 0} (default_adapter : Adapter) (new_adapter : Text → Adapter) where
  pub manager-accepted :
      (platform : Platform) (b : Battery) (bs : List Battery)
      (scrape_interval stale_timeout scan_timeout : Duration) (buffer_size : ℤ) (name : Text)
      (adapter : Adapter)
      → scrape_interval ≡ (defaults tt).scrape_interval
      → stale_timeout ≡ (defaults tt).stale_timeout
      → resolve_adapter default_adapter new_adapter platform name ≡ ok adapter
      → (m : Manager Adapter Data) × (new_manager default_adapter new_adapter platform (record {
        batteries = b ∷ bs;
        scrape_interval = scrape_interval;
        scan_timeout = scan_timeout;
        stale_timeout = stale_timeout;
        buffer_size = buffer_size;
        adapter_name = name;
      })
          ≡ ok m)
        × (m.batteries ≡ b ∷ bs)
        × (m.adapter ≡ adapter)
  unfolding new_manager with_defaults check_timeouts build
  manager-accepted platform b bs scrape_interval stale_timeout scan_timeout buffer_size name adapter
        f g h =
      rw f (rw g (rw h (_, refl, refl, refl)))

pub collector-accepted :
    {Adapter A : Type 0} (d : Device Bytes) (ds : List (Device Bytes))
    (scan_interval scan_duration : Duration) (buffer_size : ℤ) (adapter : Adapter)
    → scan_interval ≡ (defaults tt).victron_scan_interval
    → scan_duration ≡ (defaults tt).victron_scan_duration
    → (collector : Scan.Collector Adapter A) × (Scan.new_collector (record {
      devices = d ∷ ds;
      scan_interval = scan_interval;
      scan_duration = scan_duration;
      buffer_size = buffer_size;
      adapter = some adapter;
    })
        ≡ ok collector)
      × (collector.devices ≡ d ∷ ds)
unfolding Scan.new_collector Scan.fill_options Scan.build
collector-accepted d ds scan_interval scan_duration buffer_size adapter f g =
    rw f (rw g (_, refl, refl))

module _ {Float Adapter Data : Type 0} (A : Type 0) (default_adapter : Adapter)
    (new_adapter : Text → Adapter) where
  -- With the default times, at least one battery and an adapter that resolves, NewManager returns a
  -- Manager with that adapter and these batteries; and for at least one device NewCollector with the
  -- Manager's adapter returns a Collector of these devices. Whatever the buffer size and the scan
  -- timeout are.
  pub defaults_accepted :
      (platform : Platform) (c : Config Float) (b : Battery) (bs : List Battery) (d : Device Bytes)
      (ds : List (Device Bytes)) (adapter : Adapter)
      → KeepsDefaults c
      → resolve_adapter default_adapter new_adapter platform c.bluetooth_adapter ≡ ok adapter
      → (m : Manager Adapter Data) × (collector : Scan.Collector Adapter A) × (new_manager
            default_adapter new_adapter platform
            (manager_options c (b ∷ bs))
          ≡ ok m)
        × (m.batteries ≡ b ∷ bs)
        × (m.adapter ≡ adapter)
        × (Scan.new_collector (collector_options c m.adapter (d ∷ ds)) ≡ ok collector)
        × (collector.devices ≡ d ∷ ds)
  defaults_accepted platform c b bs d ds adapter k h =
      let (m, built, batteries, same) =
        manager-accepted default_adapter new_adapter platform b bs c.scrape_interval c.stale_timeout
          c.scan_timeout c.reading_buffer_size c.bluetooth_adapter adapter k.scrape_interval
          k.stale_timeout h in
      let (collector, made, devices) =
        collector-accepted d ds c.victron_scan_interval c.victron_scan_duration
          c.reading_buffer_size m.adapter k.victron_scan_interval k.victron_scan_duration in
      (m, collector, built, batteries, same, made, devices)
