-- ===== src/Config.antt =====
-- internal/config/config.go: Config and NewConfig. A float64 is the argument `Float`. The names of the
-- variables are for the env library only and are left out.
use litime_timescaledb_inser.Prelude.{◌*◌, ℤ, pos, [], Bool, true, false, Result, ok, err}
use litime_timescaledb_inser.Strings.{Text, codes}
use litime_timescaledb_inser.Maps.{Map}
use litime_timescaledb_inser.Durations.{Duration, second}

pub record Config (Float : Type 0) : Type 0 where
  pub log_level : Text
  pub litime_batteries : Map Text
  pub litime_battery_bluetooth_name : Text
  pub victron_devices : Map Text
  pub victron_keys : Map Text
  pub victron_scan_interval : Duration
  pub victron_scan_duration : Duration
  pub bluetooth_adapter : Text
  pub timescale_conn_string : Text
  pub scrape_interval : Duration
  pub callback_timeout : Duration
  pub scan_timeout : Duration
  pub stale_timeout : Duration
  pub reading_buffer_size : ℤ
  pub metrics_enabled : Bool
  pub metrics_port : ℤ
  pub local : Bool
  pub tracing_enabled : Bool
  pub tracing_sample_rate : Float
  pub tracing_service : Text
  pub tracing_version : Text

-- What the envDefault tags say, and the zero value where there is none; the argument is 0.01.
abbrev pub defaults : {Float : Type 0} → Float → Config Float
defaults rate = record {
  log_level = codes "error";
  litime_batteries = [];
  litime_battery_bluetooth_name = [];
  victron_devices = [];
  victron_keys = [];
  victron_scan_interval = pos (60 * second);
  victron_scan_duration = pos (5 * second);
  bluetooth_adapter = [];
  timescale_conn_string = [];
  scrape_interval = pos (10 * second);
  callback_timeout = pos (5 * second);
  scan_timeout = pos (30 * second);
  stale_timeout = pos (90 * second);
  reading_buffer_size = pos 256;
  metrics_enabled = true;
  metrics_port = pos 8081;
  local = false;
  tracing_enabled = false;
  tracing_sample_rate = rate;
  tracing_service = codes "litime-timescaledb-inserter";
  tracing_version = [];
}

pub data ConfigError (E : Type 0) : Type 0 where
  parse_config_failed : E → ConfigError E

-- `parsed` is what the library's env.Parse makes of the environment and the tags.
unfoldable pub new_config :
    {E Float : Type 0} → Result E (Config Float) → Result (ConfigError E) (Config Float)
new_config (ok cfg) = ok cfg
new_config (err e) = err (parse_config_failed e)
