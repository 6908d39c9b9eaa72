-- ===== src/Program/Succeeds.antt =====
-- main with the default settings, when every call that it makes succeeds.
use litime_timescaledb_inser.Prelude.{
  ℕ, ◌≡◌, refl, sym, subst, inl, ◌∙◌, ap, List, [], ◌∷◌, ◌++◌, Option, none, some, Result, ok, err,
  ok-injective, length, is_empty, if◌then◌else◌,
}
use litime_timescaledb_inser.Strings.{codes, text_eq, to_lower, lower}
use litime_timescaledb_inser.Logging.{level_error, log_level_to_slog_level}
use litime_timescaledb_inser.Config.{Config, new_config}
use litime_timescaledb_inser.Effects.{
  Frame, signals_caught, signals_released, telemetry_started, telemetry_stopped, pool_opened,
  pool_closed, manager_started, collector_started,
}
use litime_timescaledb_inser.Litime.Battery.{Battery, parse_batteries}
use litime_timescaledb_inser.Litime.Adapter.{resolve_adapter}
use litime_timescaledb_inser.Litime.Manager.{Manager}
use litime_timescaledb_inser.Litime.Metrics.Setup as LitimeMetrics
use litime_timescaledb_inser.Victron.Device.{Device, parse_devices}
use litime_timescaledb_inser.Victron.Metrics.Setup as VictronMetrics
use litime_timescaledb_inser.Victron.Collector.{Library, Bytes, LibReading}
use litime_timescaledb_inser.Victron.Collector.Scan.{Collector, new_collector}
use litime_timescaledb_inser.Timescale.Client.{
  new_timescale_client, create_pool_failed, connect_failed, ping_failed,
}
use litime_timescaledb_inser.Program.{
  World, Started, telemetry_options, bad_devices, no_victron_metrics, bad_collector, bad_log_level,
  bad_config, no_telemetry, no_runtime_metrics, no_host_metrics, no_metrics, bad_batteries,
  no_client, bad_manager, no_victron, collector_options, start_devices, start_victron, log_level,
  start_up,
}
use litime_timescaledb_inser.Program.Defaults.{KeepsDefaults, manager-accepted, collector-accepted}
use litime_timescaledb_inser.Program.Settings.{
  ManagerFor, manager-ManagerFor, Watches, collector-Watches,
}
use litime_timescaledb_inser.Program.Accounts.{PublishesFilled}
use litime_timescaledb_inser.Program.Reaches.{
  Reaches, continue-Reaches, attempt-Reaches, checked-Reaches, perform-Reaches, defer-Reaches,
  give-Reaches, wrapped-Reaches,
}

error_level : (above : ℕ → ℕ) → log_level_to_slog_level above (codes "error") ≡ ok level_error
unfolding log_level_to_slog_level to_lower lower text_eq
error_level above = refl

new_config-ok :
    {E Float : Type 0} (r : Result E (Config Float)) (c : Config Float)
    → r ≡ ok c
    → new_config r ≡ ok c
unfolding new_config
new_config-ok (ok d) c h = ap ok (ok-injective h)
new_config-ok (err e) c h = absurd cc

module _ {lib : Library} {E Float Address Adapter Data PoolConfig Pool H : Type 0}
    (w : World lib E Float Address Adapter Data PoolConfig Pool H) where
  -- The world's answers: LOG_LEVEL is unset, the configuration parses and keeps the default times,
  -- there are batteries b ∷ bs and devices ds, and no call fails.
  pub record Answers (c : Config Float) (b : Battery) (bs : List Battery) (ds : List (Device Bytes))
      (adapter : Adapter) : Type 0 where
    pub level_unset : w.log_level_variable ≡ []
    pub configured : w.parsed ≡ ok c
    pub times : KeepsDefaults c
    pub telemetry : w.init_telemetry (telemetry_options c) ≡ none
    pub runtime : w.start_runtime_metrics ≡ none
    pub host : w.start_host_metrics ≡ none
    pub batteries :
        parse_batteries w.parse_address c.litime_batteries c.litime_battery_bluetooth_name
        ≡ ok (b ∷ bs)
    pub pool_config : PoolConfig
    pub pool : Pool
    pub pool_parsed : w.parse_pool_config c.timescale_conn_string ≡ ok pool_config
    pub pool_made : w.open_pool (w.with_tracer pool_config) ≡ ok pool
    pub answered : w.ping pool ≡ none
    pub meters : LitimeMetrics.Instruments H
    pub metered : LitimeMetrics.new_metrics w.int64_gauge w.int64_counter ≡ ok meters
    pub resolved :
        resolve_adapter w.default_adapter w.new_adapter w.platform c.bluetooth_adapter ≡ ok adapter
    pub devices :
        parse_devices w.upper_above w.parse_address w.address_string w.parse_key c.victron_devices
          c.victron_keys
        ≡ ok ds
    pub victron_meters : VictronMetrics.Instruments H
    pub victron_metered : VictronMetrics.new_metrics w.victron_counter ≡ ok victron_meters
    pub manager_runs : (m : Manager Adapter Data) → (w.run_manager m).1 ≡ none
    pub collector_runs : (k : Collector Adapter (LibReading lib)) → (w.run_collector k).1 ≡ none
    pub collector_fills : PublishesFilled w

  level-ok :
      w.log_level_variable ≡ []
      → log_level_to_slog_level w.lower_above (log_level w) ≡ ok level_error
  level-ok e =
      ap (λ v. log_level_to_slog_level w.lower_above (if is_empty v then codes "error" else v)) e
      ∙ error_level w.lower_above

  module _ (c : Config Float) (b : Battery) (bs : List Battery) (ds : List (Device Bytes))
      (adapter : Adapter) (a : Answers c b bs ds adapter) where
    -- The collector, if there is one, is for the devices and shares the adapter.
    abbrev IsFor : Adapter → Option (Collector Adapter (LibReading lib)) × ℕ → Frame → Type 0
    IsFor other r t = Watches c other ds r.0 × (r.1 ≡ length ds)

    devices-Reaches :
        (es : List (Device Bytes)) (other : Adapter) (s : Frame)
        → es ≡ ds
        → Reaches (IsFor other) (start_devices w c other es s)
    unfolding start_devices
    devices-Reaches [] other s e = give-Reaches _ _ (none, 0) s (inl (sym e, refl), ap length e)
    devices-Reaches (d ∷ es) other s e =
        let (collector, made, same) =
          collector-accepted d es c.victron_scan_interval c.victron_scan_duration
            c.reading_buffer_size other a.times.victron_scan_interval
            a.times.victron_scan_duration in
        let watched = collector-Watches c other (d ∷ es) (some collector) collector refl made in
        attempt-Reaches _ _ no_victron_metrics (VictronMetrics.new_metrics w.victron_counter) s
          a.victron_meters a.victron_metered
          (attempt-Reaches _ _ bad_collector (new_collector (collector_options c other (d ∷ es))) s
            collector made
            (perform-Reaches _ _ collector_started s (
              give-Reaches _ _ (some collector, length (d ∷ es)) _
                (subst (λ l. Watches c other l (some collector)) e watched, ap length e))))

    victron-Reaches :
        (other : Adapter) (s : Frame) → Reaches (IsFor other) (start_victron w c other s)
    unfolding start_victron
    victron-Reaches other s =
        attempt-Reaches _ _ bad_devices _ s ds a.devices (devices-Reaches ds other s refl)

    client-Reaches :
        (s : Frame)
        → Reaches
            (λ pool t. t ≡ record s { effects = s.effects ++ pool_opened ∷ [] })
            (new_timescale_client w.parse_pool_config w.with_tracer w.open_pool w.ping
              c.timescale_conn_string s)
    unfolding new_timescale_client
    client-Reaches s = attempt-Reaches _ _ create_pool_failed _ s a.pool_config a.pool_parsed (
        attempt-Reaches _ _ connect_failed _ s a.pool a.pool_made (
          perform-Reaches _ _ pool_opened s
            (checked-Reaches _ _ ping_failed _ _ a.answered (give-Reaches _ _ a.pool _ refl))))

    -- What main serves with.
    abbrev pub Serves : Started lib Adapter Data Pool → Frame → Type 0
    Serves started t =
        ManagerFor w c (b ∷ bs) started.manager
        × (started.manager.adapter ≡ adapter)
        × Watches c started.manager.adapter ds started.collector
        × (started.victron_devices ≡ length ds)

    pub start_up-Reaches : Reaches Serves (start_up w (record { effects = []; deferred = [] }))
    unfolding start_up
    start_up-Reaches =
        let (manager, built, batteries, same) =
          manager-accepted w.default_adapter w.new_adapter w.platform b bs c.scrape_interval
            c.stale_timeout c.scan_timeout c.reading_buffer_size c.bluetooth_adapter adapter
            a.times.scrape_interval a.times.stale_timeout a.resolved in
        attempt-Reaches _ _ bad_log_level _ _ level_error (level-ok a.level_unset) (
          attempt-Reaches _ _ bad_config _ _ c (new_config-ok w.parsed c a.configured) (
            perform-Reaches _ _ signals_caught _ (
              defer-Reaches _ _ signals_released _ (
                checked-Reaches _ _ no_telemetry _ _ a.telemetry (
                  perform-Reaches _ _ telemetry_started _ (
                    checked-Reaches _ _ no_runtime_metrics _ _ a.runtime (
                      checked-Reaches _ _ no_host_metrics _ _ a.host (
                        defer-Reaches _ _ telemetry_stopped _ (
                          attempt-Reaches _ _ bad_batteries _ _ (b ∷ bs) a.batteries (
                            continue-Reaches _ _ _ _
                              (wrapped-Reaches _ no_client _ _ (client-Reaches _))
                              (λ pool s e. defer-Reaches _ _ pool_closed _ (
                                attempt-Reaches _ _ no_metrics _ _ a.meters a.metered (
                                  attempt-Reaches _ _ bad_manager _ _ manager built (
                                    perform-Reaches _ _ manager_started _ (
                                      continue-Reaches _ _ _ (IsFor manager.adapter)
                                        (wrapped-Reaches _ no_victron _ _
                                          (victron-Reaches manager.adapter _))
                                        (λ r t n. give-Reaches _ _ _ t (
                                          manager-ManagerFor w c (b ∷ bs) manager built,
                                          same,
                                          n.0,
                                          n.1,
                                        )))))))))))))))))
