-- ===== src/Program/Tests.antt =====
-- main with one battery and one device, and its theorems at that world. A battery reading is a
-- number, an address and an adapter are texts, and an error is the name of the call.
use litime_timescaledb_inser.Prelude.{
  ℕ, suc, ◌≡◌, refl, inl, true, false, [], ◌∷◌, none, some, ok, pos,
}
use litime_timescaledb_inser.Timescale.{Value, float}
use litime_timescaledb_inser.Service.Sample.{lib, fields, payloads, charged}
use litime_timescaledb_inser.Strings.{Text, codes}
use litime_timescaledb_inser.Config.{Config, defaults}
use litime_timescaledb_inser.Effects.{collector_started}
use litime_timescaledb_inser.Litime.Battery.{Battery, match_name}
use litime_timescaledb_inser.Litime.Adapter.{linux, resolve_adapter}
use litime_timescaledb_inser.Litime.Manager.{Manager, new_manager}
use litime_timescaledb_inser.Litime.Queue as Queue
use litime_timescaledb_inser.Victron.Device.{Device}
use litime_timescaledb_inser.Victron.Collector.{Library, Bytes, LibReading}
use litime_timescaledb_inser.Victron.Collector.Scan as Scan
use litime_timescaledb_inser.Service.Loops.{Store}
use litime_timescaledb_inser.Program.{World, Exit, manager_options, collector_options, main}
use litime_timescaledb_inser.Program.Succeeds.{Answers}
use litime_timescaledb_inser.Program.Shutdown.{IsDone, main_succeeds}
use litime_timescaledb_inser.Strings.{trim_space, to_upper}
use litime_timescaledb_inser.Litime.Battery.{match_address, parse_batteries}
use litime_timescaledb_inser.Victron.Device.{parse_devices}
use litime_timescaledb_inser.Litime.Metrics.Setup as LitimeMetrics
use litime_timescaledb_inser.Victron.Metrics.Setup as VictronMetrics

abbrev config : Config ℕ
config = record (defaults 1) {
  litime_batteries = (codes "attic", codes "one") ∷ [];
  victron_devices = (codes "solar", codes "A:1") ∷ [];
  victron_keys = (codes "solar", codes "k") ∷ [];
}

abbrev reading : Queue.Reading ℕ
reading = record { battery_id = codes "attic"; observed_at = pos 5; data_of = 7 }

-- A number is a database: how many statements it has run.
abbrev store : Store lib ℕ ℕ ℕ
store = record {
  exec = λ n s args. (suc n, false);
  fields = fields;
  payloads = payloads;
  empty = 0;
  turns = true ∷ [];
}

abbrev world : World lib Text ℕ Text Text ℕ Text Text ℕ
world = record {
  log_level_variable = codes "INFO";
  lower_above = λ c. c;
  upper_above = λ c. c;
  parsed = ok config;
  init_telemetry = λ o. none;
  start_runtime_metrics = none;
  start_host_metrics = none;
  parse_address = λ t. some t;
  address_string = λ a. a;
  parse_key = λ t. some t;
  parse_pool_config = λ t. ok t;
  with_tracer = λ c. c;
  open_pool = λ c. ok c;
  ping = λ p. none;
  int64_gauge = λ name description. (1, none);
  int64_counter = λ name description. (2, none);
  victron_counter = λ name description. (3, none);
  platform = linux;
  default_adapter = codes "hci0";
  new_adapter = λ name. name;
  run_manager = λ m. (reading ∷ [], none);
  run_collector = λ c. (charged ∷ [], none);
}

-- A failed Run of the manager.
abbrev failing : World lib Text ℕ Text Text ℕ Text Text ℕ
failing = record world { run_manager = λ m. (reading ∷ [], some (codes "scan")) }

succeeds : ((main world store).code ≡ 0) × ((main world store).written.db ≡ 2)
unfolding main litime_timescaledb_inser.Effects.continue litime_timescaledb_inser.Effects.attempt
    litime_timescaledb_inser.Effects.perform litime_timescaledb_inser.Effects.defer
    litime_timescaledb_inser.Effects.checked litime_timescaledb_inser.Effects.wrapped
    litime_timescaledb_inser.Effects.rewrapped litime_timescaledb_inser.Effects.give
    litime_timescaledb_inser.Logging.log_level_to_slog_level
    litime_timescaledb_inser.Config.new_config
    litime_timescaledb_inser.Litime.Battery.parse_batteries
    litime_timescaledb_inser.Litime.Battery.battery_of
    litime_timescaledb_inser.Litime.Battery.classify
    litime_timescaledb_inser.Litime.Battery.fallback
    litime_timescaledb_inser.Litime.Battery.sorted_entries
    litime_timescaledb_inser.Strings.trim_space litime_timescaledb_inser.Strings.is_space
    litime_timescaledb_inser.Strings.lower litime_timescaledb_inser.Strings.text_eq
    litime_timescaledb_inser.Strings.text_lt litime_timescaledb_inser.Strings.to_lower
    litime_timescaledb_inser.Strings.to_upper litime_timescaledb_inser.Strings.trim_left
    litime_timescaledb_inser.Strings.trim_right litime_timescaledb_inser.Strings.upper
    litime_timescaledb_inser.Maps.lookup litime_timescaledb_inser.Maps.insert
    litime_timescaledb_inser.Timescale.Client.new_timescale_client
    litime_timescaledb_inser.Litime.Manager.new_manager
    litime_timescaledb_inser.Litime.Manager.build
    litime_timescaledb_inser.Litime.Manager.check_timeouts
    litime_timescaledb_inser.Litime.Manager.with_defaults litime_timescaledb_inser.Sorting.sort_by
    litime_timescaledb_inser.Sorting.insert_sorted
    litime_timescaledb_inser.Litime.Adapter.resolve_adapter
    litime_timescaledb_inser.Litime.Adapter.resolve_adapter_linux
    litime_timescaledb_inser.Litime.Adapter.resolve_adapter_other
    litime_timescaledb_inser.Channel.make litime_timescaledb_inser.Victron.Device.check_keys
    litime_timescaledb_inser.Victron.Device.device_of
    litime_timescaledb_inser.Victron.Device.parse_devices
    litime_timescaledb_inser.Litime.Battery.parse_entries
    litime_timescaledb_inser.Litime.Metrics.Setup.new_metrics
    litime_timescaledb_inser.Litime.Queue.new_queue litime_timescaledb_inser.Program.end
    litime_timescaledb_inser.Service.Loops.write_all litime_timescaledb_inser.Program.finish
    litime_timescaledb_inser.Program.serve litime_timescaledb_inser.Service.insert
    litime_timescaledb_inser.Service.drain litime_timescaledb_inser.Service.insert_reading
    litime_timescaledb_inser.Service.insert_solar_charger
    litime_timescaledb_inser.Timescale.insert_litime
    litime_timescaledb_inser.Timescale.insert_victron litime_timescaledb_inser.Program.start_devices
    litime_timescaledb_inser.Program.start_up litime_timescaledb_inser.Program.start_victron
    litime_timescaledb_inser.Victron.Device.parse_entries
    litime_timescaledb_inser.Victron.Metrics.Setup.counter
    litime_timescaledb_inser.Victron.Metrics.Setup.gather
    litime_timescaledb_inser.Victron.Metrics.Setup.new_metrics
    litime_timescaledb_inser.Victron.Collector.Scan.build
    litime_timescaledb_inser.Victron.Collector.Scan.fill_options
    litime_timescaledb_inser.Victron.Collector.Scan.index_devices
    litime_timescaledb_inser.Victron.Collector.Scan.new_collector
succeeds = (refl, refl)

resolves :
    resolve_adapter (codes "hci0") (λ name. name) linux config.bluetooth_adapter ≡ ok (codes "hci0")
unfolding resolve_adapter
resolves = refl

-- LOG_LEVEL unset.
abbrev quiet : World lib Text ℕ Text Text ℕ Text Text ℕ
quiet = record world { log_level_variable = [] }

abbrev attic : Battery
attic = record { id = codes "attic"; match = match_address; value = codes "one" }

abbrev solar : Device Bytes
solar = record { id = codes "solar"; address = codes "A:1"; key = codes "k" }

batteries_parse :
    parse_batteries quiet.parse_address config.litime_batteries config.litime_battery_bluetooth_name
    ≡ ok (attic ∷ [])
unfolding parse_batteries trim_space litime_timescaledb_inser.Maps.lookup
    litime_timescaledb_inser.Sorting.sort_by litime_timescaledb_inser.Litime.Battery.classify
batteries_parse = refl

devices_parse :
    parse_devices quiet.upper_above quiet.parse_address quiet.address_string quiet.parse_key
      config.victron_devices config.victron_keys
    ≡ ok (solar ∷ [])
unfolding parse_devices trim_space to_upper litime_timescaledb_inser.Maps.lookup
    litime_timescaledb_inser.Strings.text_eq litime_timescaledb_inser.Sorting.sort_by
devices_parse = refl

answers : Answers quiet config attic [] (solar ∷ []) (codes "hci0")
unfolding LitimeMetrics.new_metrics VictronMetrics.new_metrics
answers = record {
  level_unset = refl;
  configured = refl;
  times = record {
    scrape_interval = refl;
    stale_timeout = refl;
    victron_scan_interval = refl;
    victron_scan_duration = refl;
  };
  telemetry = refl;
  runtime = refl;
  host = refl;
  batteries = batteries_parse;
  pool_config = [];
  pool = [];
  pool_parsed = refl;
  pool_made = refl;
  answered = refl;
  meters = _;
  metered = refl;
  resolved = resolves;
  devices = devices_parse;
  victron_meters = _;
  victron_metered = refl;
  manager_runs = λ m. refl;
  collector_runs = λ k. refl;
  collector_fills = λ k. (inl (refl, (λ h. cc), refl), tt);
}

main_succeeds_example :
    IsDone quiet store config attic [] (solar ∷ []) (codes "hci0") answers (main quiet store)
main_succeeds_example =
    main_succeeds quiet store config attic [] (solar ∷ []) (codes "hci0") answers
