-- ===== src/Program/Settings.antt =====
-- With which settings main serves.
use litime_timescaledb_inser.Prelude.{
  ◌*◌, ◌≡◌, ◌≢◌, ◌⊎◌, inr, ◌∙◌, List, [], Option, none, some, ok, sym,
}
use litime_timescaledb_inser.Prelude.Int.{pos_part}
use litime_timescaledb_inser.Durations.{second}
use litime_timescaledb_inser.Config.{Config}
use litime_timescaledb_inser.Channel.{make}
use litime_timescaledb_inser.Litime.Battery.{Battery}
use litime_timescaledb_inser.Litime.Adapter.{resolve_adapter}
use litime_timescaledb_inser.Litime.Queue.{new_queue}
use litime_timescaledb_inser.Litime.Manager.{Manager, or_default, new_manager}
use litime_timescaledb_inser.Litime.Manager.Settings.{new_manager-Keeps}
use litime_timescaledb_inser.Victron.Device.{Device}
use litime_timescaledb_inser.Victron.Collector.{Library, Bytes}
use litime_timescaledb_inser.Victron.Collector.Scan.{Collector, new_collector}
use litime_timescaledb_inser.Victron.Collector.Scan.Settings.{new_collector-Keeps}
use litime_timescaledb_inser.Program.{World, manager_options, collector_options}

some-injective {ℓ} : {A : Type ℓ} {a b : A} → some a ≡ some b → a ≡ b
some-injective h = cc

module _ {lib : Library} {E Float Address Adapter Data PoolConfig Pool H : Type 0}
    (w : World lib E Float Address Adapter Data PoolConfig Pool H) where
  -- The manager has these batteries and the settings of the configuration, or their defaults.
  pub record ManagerFor (c : Config Float) (batteries : List Battery) (m : Manager Adapter Data)
      : Type 0 where
    pub same : m.batteries ≡ batteries
    pub scrape_interval : m.scrape_interval ≡ or_default c.scrape_interval (10 * second)
    pub scan_timeout : m.scan_timeout ≡ c.scan_timeout
    pub stale_timeout : m.stale_timeout ≡ or_default c.stale_timeout (90 * second)
    pub adapter :
        resolve_adapter w.default_adapter w.new_adapter w.platform c.bluetooth_adapter
        ≡ ok m.adapter
    pub queue : m.queue ≡ new_queue (pos_part (or_default c.reading_buffer_size 256))

  pub manager-ManagerFor :
      (c : Config Float) (batteries : List Battery) (m : Manager Adapter Data)
      → new_manager w.default_adapter w.new_adapter w.platform (manager_options c batteries) ≡ ok m
      → ManagerFor c batteries m
  manager-ManagerFor c batteries m h =
      let k =
        new_manager-Keeps w.default_adapter w.new_adapter w.platform (manager_options c batteries) m
          h in
      record {
        same = k.batteries;
        scrape_interval = k.scrape_interval;
        scan_timeout = k.scan_timeout;
        stale_timeout = k.stale_timeout;
        adapter = k.adapter;
        queue = k.queue;
      }

module _ {Float Adapter A : Type 0} (c : Config Float) (adapter : Adapter)
    (devices : List (Device Bytes)) where
  -- The collector has these devices, this adapter and the settings of the configuration, or their
  -- defaults.
  pub record CollectorFor (k : Collector Adapter A) : Type 0 where
    pub same : k.devices ≡ devices
    pub scan_interval : k.scan_interval ≡ or_default c.victron_scan_interval (60 * second)
    pub scan_duration : k.scan_duration ≡ or_default c.victron_scan_duration (5 * second)
    pub shared : k.adapter ≡ adapter
    pub readings : k.readings ≡ make (pos_part (or_default c.reading_buffer_size 64))

  pub collector-CollectorFor :
      (k : Collector Adapter A)
      → new_collector (collector_options c adapter devices) ≡ ok k
      → CollectorFor k
  collector-CollectorFor k h =
      let s = new_collector-Keeps (collector_options c adapter devices) k h in
      record {
        same = s.devices.0;
        scan_interval = s.scan_interval;
        scan_duration = s.scan_duration;
        shared = sym (some-injective s.adapter);
        readings = s.readings;
      }

  -- There is a collector exactly if there is a device, and it is for these devices.
  abbrev pub Watches : Option (Collector Adapter A) → Type 0
  Watches o =
      ((devices ≡ []) × (o ≡ none))
      ⊎ ((devices ≢ []) × (k : Collector Adapter A) × (o ≡ some k) × CollectorFor k)

  pub collector-Watches :
      (o : Option (Collector Adapter A)) (k : Collector Adapter A)
      → o ≡ some k
      → new_collector (collector_options c adapter devices) ≡ ok k
      → Watches o
  collector-Watches o k e h =
      let s = new_collector-Keeps (collector_options c adapter devices) k h in
      inr ((λ q. s.devices.1 (s.devices.0 ∙ q)), k, e, collector-CollectorFor k h)
