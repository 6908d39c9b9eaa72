-- ===== src/Program/Start.antt =====
-- What main has done where it starts serving, and where it gives up before that.
use litime_timescaledb_inser.Prelude.{
  ℕ, ◌≡◌, refl, ap, ◌⊎◌, inl, inr, List, [], ◌∷◌, ◌++◌, Option, none, some, Result, ok, err,
  ok-injective, length,
}
use litime_timescaledb_inser.Strings.{Text}
use litime_timescaledb_inser.Logging.{log_level_to_slog_level}
use litime_timescaledb_inser.Config.{Config, new_config}
use litime_timescaledb_inser.Effects.{
  Frame, signals_caught, signals_released, telemetry_started, telemetry_stopped, pool_opened,
  pool_closed, manager_started, collector_started,
}
use litime_timescaledb_inser.Litime.Battery.{Battery, parse_batteries}
use litime_timescaledb_inser.Litime.Manager.{new_manager}
use litime_timescaledb_inser.Litime.Metrics.Setup as LitimeMetrics
use litime_timescaledb_inser.Victron.Device.{Device, parse_devices}
use litime_timescaledb_inser.Victron.Metrics.Setup as VictronMetrics
use litime_timescaledb_inser.Victron.Collector.{Library, Bytes, LibReading}
use litime_timescaledb_inser.Victron.Collector.Scan.{Collector, new_collector}
use litime_timescaledb_inser.Timescale.Client.{
  new_timescale_client, create_pool_failed, connect_failed, ping_failed,
}
use litime_timescaledb_inser.Program.{
  World, Started, telemetry_options, bad_devices, no_victron_metrics, bad_collector, bad_log_level,
  bad_config, no_telemetry, no_runtime_metrics, no_host_metrics, no_metrics, bad_batteries,
  no_client, bad_manager, no_victron, manager_options, collector_options, start_devices,
  start_victron, log_level, start_up,
}
use litime_timescaledb_inser.Program.Rules.{
  IsEarly, all_ended, without_collector, Ends, follow-Ends, continue-Ends, attempt-Ends,
  checked-Ends, perform-Ends, defer-Ends, give-Ends, wrapped-Ends,
}

module _ {E PoolConfig Pool : Type 0} (parse_config : Text → Result E PoolConfig)
    (with_tracer : PoolConfig → PoolConfig) (new_with_config : PoolConfig → Result E Pool)
    (ping : Pool → Option E) where
  client-Ends :
      (conn_string : Text) (s : Frame)
      → IsEarly s.effects
      → IsEarly (s.effects ++ pool_opened ∷ [])
      → Ends
          (λ pool t. t ≡ record s { effects = s.effects ++ pool_opened ∷ [] })
          (new_timescale_client parse_config with_tracer new_with_config ping conn_string s)
  unfolding new_timescale_client
  client-Ends conn_string s h k =
      attempt-Ends _ _ create_pool_failed (parse_config conn_string) s h (λ cfg e.
        attempt-Ends _ _ connect_failed (new_with_config (with_tracer cfg)) s h (λ pool f.
          perform-Ends _ _ pool_opened s
            (checked-Ends _ _ ping_failed (ping pool) _ k (give-Ends _ _ pool _ refl))))

module _ {lib : Library} {E Float Address Adapter Data PoolConfig Pool H : Type 0}
    (w : World lib E Float Address Adapter Data PoolConfig Pool H) where
  -- startVictron has made no collector as there is no device, or has started one.
  pub record VictronStarted (c : Config Float) (adapter : Adapter) (s : Frame)
      (r : Option (Collector Adapter (LibReading lib)) × ℕ) (t : Frame) : Type 0 where
    pub devices : List (Device Bytes)
    pub parsed :
        parse_devices w.upper_above w.parse_address w.address_string w.parse_key c.victron_devices
          c.victron_keys
        ≡ ok devices
    pub counted : r.1 ≡ length devices
    pub collected :
        ((devices ≡ []) × (r.0 ≡ none) × (t ≡ s))
        ⊎ ((collector : Collector Adapter (LibReading lib)) × (r.0 ≡ some collector)
            × (new_collector (collector_options c adapter devices) ≡ ok collector)
            × (t ≡ record s { effects = s.effects ++ collector_started ∷ [] }))

  module _ (c : Config Float) (adapter : Adapter) (s : Frame) (h : IsEarly s.effects) where
    devices-Ends :
        (devices : List (Device Bytes))
        → parse_devices w.upper_above w.parse_address w.address_string w.parse_key c.victron_devices
            c.victron_keys
          ≡ ok devices
        → Ends (VictronStarted c adapter s) (start_devices w c adapter devices s)
    unfolding start_devices
    devices-Ends [] e =
        give-Ends _ _ (none, 0) s
          (record { devices = []; parsed = e; counted = refl; collected = inl (refl, refl, refl) })
    devices-Ends (d ∷ ds) e =
        attempt-Ends _ _ no_victron_metrics (VictronMetrics.new_metrics w.victron_counter) s h
          (λ metrics f.
            attempt-Ends _ _ bad_collector (new_collector (collector_options c adapter (d ∷ ds))) s
              h
              (λ collector g. perform-Ends _ _ collector_started s (
                give-Ends _ _ (some collector, length (d ∷ ds)) _
                  (record {
                    devices = d ∷ ds;
                    parsed = e;
                    counted = refl;
                    collected = inr (collector, refl, g, refl);
                  }))))

    victron-Ends : Ends (VictronStarted c adapter s) (start_victron w c adapter s)
    unfolding start_victron
    victron-Ends = attempt-Ends _ _ bad_devices _ s h devices-Ends

  -- What main has where it starts serving.
  abbrev pub up : Frame
  up = record { effects = without_collector; deferred = all_ended }

  pub record IsUp (started : Started lib Adapter Data Pool) (t : Frame) : Type 0 where
    pub config : Config Float
    pub batteries : List Battery
    pub configured : w.parsed ≡ ok config
    pub listed :
        parse_batteries w.parse_address config.litime_batteries config.litime_battery_bluetooth_name
        ≡ ok batteries
    pub built :
        new_manager w.default_adapter w.new_adapter w.platform (manager_options config batteries)
        ≡ ok started.manager
    pub victron :
        VictronStarted config started.manager.adapter up
          (started.collector, started.victron_devices)
          t

  new_config-ok : (r : Result E (Config Float)) (c : Config Float) → new_config r ≡ ok c → r ≡ ok c
  unfolding new_config
  new_config-ok (ok d) c h = ap ok (ok-injective h)
  new_config-ok (err e) c h = absurd cc

  pub start_up-Ends : Ends IsUp (start_up w (record { effects = []; deferred = [] }))
  unfolding start_up
  start_up-Ends =
      attempt-Ends _ _ bad_log_level (log_level_to_slog_level w.lower_above (log_level w)) _
        (_, refl)
        (λ level e1.
          attempt-Ends _ _ bad_config (new_config w.parsed) _ (_, refl)
            (λ c e2. perform-Ends _ _ signals_caught _ (
              defer-Ends _ _ signals_released _ (
                checked-Ends _ _ no_telemetry (w.init_telemetry (telemetry_options c)) _ (_, refl)
                  (perform-Ends _ _ telemetry_started _ (
                    checked-Ends _ _ no_runtime_metrics w.start_runtime_metrics _ (_, refl)
                      (checked-Ends _ _ no_host_metrics w.start_host_metrics _ (_, refl)
                        (defer-Ends _ _ telemetry_stopped _ (
                          attempt-Ends _ _ bad_batteries _ _ (_, refl)
                            (λ batteries e3.
                              continue-Ends _ _ _ _
                                (wrapped-Ends _ no_client _ _ (
                                  client-Ends w.parse_pool_config w.with_tracer w.open_pool w.ping
                                    c.timescale_conn_string _ (_, refl) (_, refl)))
                                (λ pool. defer-Ends _ _ pool_closed _ (
                                  attempt-Ends _ _ no_metrics
                                    (LitimeMetrics.new_metrics w.int64_gauge w.int64_counter) _
                                    (_, refl)
                                    (λ metrics e4.
                                      attempt-Ends _ _ bad_manager
                                        (new_manager w.default_adapter w.new_adapter w.platform
                                          (manager_options c batteries))
                                        _ (_, refl)
                                        (λ manager e5. perform-Ends _ _ manager_started _ (
                                          follow-Ends _ _ _ (VictronStarted c manager.adapter up)
                                            (wrapped-Ends _ no_victron _ _
                                              (victron-Ends c manager.adapter up (_, refl)))
                                            (λ r t v. give-Ends _ _ _ t (record {
                                              config = c;
                                              batteries = batteries;
                                              configured = new_config-ok w.parsed c e2;
                                              listed = e3;
                                              built = e5;
                                              victron = v;
                                            })))))))))))))))))
