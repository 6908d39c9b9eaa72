-- ===== src/Program.antt =====
-- cmd/litime-timescaledb-inserter: main of main.go and startVictron of victron.go. What the world
-- answers to main's calls is the record World; the log lines are left out.
use litime_timescaledb_inser.Prelude.{
  ℕ, ℤ, Bool, true, false, List, [], ◌∷◌, ◌++◌, Option, none, some, Result, ok, err, is_empty,
  if◌then◌else◌, length,
}
use litime_timescaledb_inser.Strings.{Text, codes}
use litime_timescaledb_inser.Logging.{SlogLevel, log_level_to_slog_level}
use litime_timescaledb_inser.Config.{Config, ConfigError, new_config}
use litime_timescaledb_inser.Registration.{Create}
use litime_timescaledb_inser.Effects.{
  Effect, Frame, Proc, ◌>>=◌, attempt, wrapped, checked, perform, defer, give, signals_caught,
  signals_released, telemetry_started, telemetry_stopped, pool_closed, manager_started,
  collector_started,
}
use litime_timescaledb_inser.Litime.Battery.{Battery, BatteryError, parse_batteries}
use litime_timescaledb_inser.Litime.Adapter.{Platform}
use litime_timescaledb_inser.Litime.Queue as Queue
use litime_timescaledb_inser.Litime.Manager.{ManagerOptions, Manager, ManagerError, new_manager}
use litime_timescaledb_inser.Litime.Metrics.Setup as LitimeMetrics
use litime_timescaledb_inser.Victron.Device.{Device, DeviceError, parse_devices}
use litime_timescaledb_inser.Victron.Metrics.Setup as VictronMetrics
use litime_timescaledb_inser.Victron.Collector.{Library, Bytes, LibReading}
use litime_timescaledb_inser.Victron.Collector.Scan.{
  CollectorOptions, Collector, CollectorError, new_collector,
}
use litime_timescaledb_inser.Litime.Metrics as BatteryMetrics
use litime_timescaledb_inser.Victron.Metrics as DeviceMetrics
use litime_timescaledb_inser.Timescale.{Value, Statement, BatteryData}
use litime_timescaledb_inser.Service.Loops.{Store, Written, nothing, write_device, write_all}
use litime_timescaledb_inser.Service.{Payloads, insert, insert_reading, drain}
use litime_timescaledb_inser.Timescale.Client.{ClientError, new_timescale_client}
pub mod Rules
pub mod Start
pub mod Exits
pub mod Settings
pub mod Accounts
pub mod Defaults
pub mod Reaches
pub mod Succeeds
pub mod Shutdown
mod Tests

pub data VictronError (E : Type 0) : Type 0 where
  bad_devices : DeviceError → VictronError E
  no_victron_metrics : E → VictronError E
  bad_collector : CollectorError → VictronError E

-- One constructor for each os.Exit(1) and for log.Fatalf, with the error that is logged before it.
pub data Fatal (E : Type 0) : Type 0 where
  bad_log_level : Text → Fatal E
  bad_config : ConfigError E → Fatal E
  no_telemetry no_runtime_metrics no_host_metrics no_metrics : E → Fatal E
  bad_batteries : BatteryError → Fatal E
  no_client : ClientError E → Fatal E
  bad_manager : ManagerError → Fatal E
  no_victron : VictronError E → Fatal E
  manager_failed collector_failed : E → Fatal E

pub data ExporterType : Type 0 where
  prometheus otlp_grpc : ExporterType

-- The arguments of NewMetricConfig and of NewTraceConfig.
pub record TelemetryOptions (Float : Type 0) : Type 0 where
  pub metrics_enabled : Bool
  pub exporter_type : ExporterType
  pub metrics_port : ℤ
  pub tracing_enabled : Bool
  pub tracing_sample_rate : Float
  pub tracing_service : Text
  pub tracing_version : Text

abbrev pub telemetry_options : {Float : Type 0} → Config Float → TelemetryOptions Float
telemetry_options c = record {
  metrics_enabled = c.metrics_enabled;
  exporter_type = if c.local then otlp_grpc else prometheus;
  metrics_port = c.metrics_port;
  tracing_enabled = c.tracing_enabled;
  tracing_sample_rate = c.tracing_sample_rate;
  tracing_service = c.tracing_service;
  tracing_version = c.tracing_version;
}

module _ (lib : Library) (E Float Address Adapter Data PoolConfig Pool H : Type 0) where
  -- The environment, the libraries that main calls, and how the goroutines that it starts go:
  -- `run_manager` and `run_collector` are the readings that the queue gives until it is closed and
  -- the error of Run.
  pub record World : Type 0 where
    pub log_level_variable : Text
    pub lower_above : ℕ → ℕ
    pub upper_above : ℕ → ℕ
    pub parsed : Result E (Config Float)
    pub init_telemetry : TelemetryOptions Float → Option E
    pub start_runtime_metrics : Option E
    pub start_host_metrics : Option E
    pub parse_address : Text → Option Address
    pub address_string : Address → Text
    pub parse_key : Text → Option Bytes
    pub parse_pool_config : Text → Result E PoolConfig
    pub with_tracer : PoolConfig → PoolConfig
    pub open_pool : PoolConfig → Result E Pool
    pub ping : Pool → Option E
    pub int64_gauge : Create H E
    pub int64_counter : Create H E
    pub victron_counter : Create H E
    pub platform : Platform
    pub default_adapter : Adapter
    pub new_adapter : Text → Adapter
    pub run_manager : Manager Adapter Data → List (Queue.Reading Data) × Option E
    pub run_collector : Collector Adapter (LibReading lib) → List (LibReading lib) × Option E

-- main's options for NewManager, and startVictron's for NewCollector.
abbrev pub manager_options : {Float : Type 0} → Config Float → List Battery → ManagerOptions
manager_options c batteries = record {
  batteries = batteries;
  scrape_interval = c.scrape_interval;
  scan_timeout = c.scan_timeout;
  stale_timeout = c.stale_timeout;
  buffer_size = c.reading_buffer_size;
  adapter_name = c.bluetooth_adapter;
}

abbrev pub collector_options :
    {Float Adapter : Type 0}
    → Config Float
    → Adapter
    → List (Device Bytes)
    → CollectorOptions Adapter
collector_options c adapter devices = record {
  devices = devices;
  scan_interval = c.victron_scan_interval;
  scan_duration = c.victron_scan_duration;
  buffer_size = c.reading_buffer_size;
  adapter = some adapter;
}

-- What main has when its loop over the readings begins; `collector` is none if no device is
-- configured.
pub record Started (lib : Library) (Adapter Data Pool : Type 0) : Type 0 where
  pub client : Pool
  pub manager : Manager Adapter Data
  pub collector : Option (Collector Adapter (LibReading lib))
  pub victron_devices : ℕ

-- How the process ends: its code, what it did outside, and what it has written.
pub record Exit (D : Type 0) : Type 0 where
  pub code : ℕ
  pub effects : List Effect
  pub written : Written D

module _ {lib : Library} {E Float Address Adapter Data PoolConfig Pool H : Type 0}
    (w : World lib E Float Address Adapter Data PoolConfig Pool H) where
  -- startVictron behind ParseDevices.
  unfoldable pub start_devices :
      Config Float
      → Adapter
      → List (Device Bytes)
      → Proc (VictronError E) (Option (Collector Adapter (LibReading lib)) × ℕ)
  start_devices c adapter devices = if is_empty devices then give (none, 0) else (do
    metrics ← attempt no_victron_metrics (VictronMetrics.new_metrics w.victron_counter)
    collector ← attempt bad_collector (new_collector (collector_options c adapter devices))
    running ← perform collector_started
    give (some collector, length devices))

  unfoldable pub start_victron :
      Config Float
      → Adapter
      → Proc (VictronError E) (Option (Collector Adapter (LibReading lib)) × ℕ)
  unfolding start_devices
  start_victron c adapter = do
    devices ← attempt bad_devices (
        parse_devices w.upper_above w.parse_address w.address_string w.parse_key c.victron_devices
          c.victron_keys)
    start_devices c adapter devices

  abbrev pub log_level : Text
  log_level = if is_empty w.log_level_variable then codes "error" else w.log_level_variable

  -- main up to its loop over the readings.
  unfoldable pub start_up : Proc (Fatal E) (Started lib Adapter Data Pool)
  unfolding start_victron
  start_up = do
    level ← attempt bad_log_level (log_level_to_slog_level w.lower_above log_level)
    c ← attempt bad_config (new_config w.parsed)
    caught ← perform signals_caught
    stop ← defer signals_released
    telemetry ← checked no_telemetry (w.init_telemetry (telemetry_options c))
    initialised ← perform telemetry_started
    runtime ← checked no_runtime_metrics w.start_runtime_metrics
    host ← checked no_host_metrics w.start_host_metrics
    shutdown ← defer telemetry_stopped
    batteries ←
        attempt bad_batteries
          (parse_batteries w.parse_address c.litime_batteries c.litime_battery_bluetooth_name)
    client ← wrapped no_client (
        new_timescale_client w.parse_pool_config w.with_tracer w.open_pool w.ping
          c.timescale_conn_string)
    close ← defer pool_closed
    metrics ← attempt no_metrics (LitimeMetrics.new_metrics w.int64_gauge w.int64_counter)
    manager ←
        attempt bad_manager
          (new_manager w.default_adapter w.new_adapter w.platform (manager_options c batteries))
    running ← perform manager_started
    victron ← wrapped no_victron (start_victron c manager.adapter)
    give (record {
      client = client;
      manager = manager;
      collector = victron.0;
      victron_devices = victron.1;
    })

  -- What the writer of the device readings gets, and what it reports on victronDone.
  abbrev pub victron_outcome :
      Option (Collector Adapter (LibReading lib)) → List (LibReading lib) × Option E
  victron_outcome none = ([], none)
  victron_outcome (some collector) = w.run_collector collector

module _ {lib : Library} {E Float Address Adapter Data PoolConfig Pool H F D : Type 0}
    (w : World lib E Float Address Adapter Data PoolConfig Pool H)
    (store : Store lib F D Data) where
  -- Behind main's loop: the two receives, of which the second comes when the other loop has ended,
  -- and the deferred calls.
  unfoldable pub finish : Frame → Option E → Option E → Written D × List (LibReading lib) → Exit D
  unfolding insert_reading drain
  finish s (some failure) _ (written, rest) = record {
    code = 1;
    effects = s.effects;
    written = written;
  }
  finish s none (some failure) (written, rest) = record {
    code = 1;
    effects = s.effects;
    written = drain (write_device store) rest written;
  }
  finish s none none (written, rest) = record {
    code = 0;
    effects = s.effects ++ s.deferred;
    written = drain (write_device store) rest written;
  }

  unfoldable pub serve :
      Frame → List (Queue.Reading Data) × Option E → List (LibReading lib) × Option E → Exit D
  unfolding write_all finish
  serve s (readings, failed) (device_readings, device_failed) =
      finish s failed device_failed
        (write_all store store.turns readings device_readings (nothing store))

  -- os.Exit(1) while main starts, or the rest of main.
  unfoldable pub end : Frame × Result (Fatal E) (Started lib Adapter Data Pool) → Exit D
  unfolding serve
  end (s, err fatal) = record { code = 1; effects = s.effects; written = nothing store }
  end (s, ok started) =
      serve s (w.run_manager started.manager) (victron_outcome w started.collector)

  unfoldable pub main : Exit D
  unfolding start_up end
  main = end (start_up w (record { effects = []; deferred = [] }))
