-- ===== src/Service.antt =====
-- cmd/litime-timescaledb-inserter: insert and the loop over the readings of main.go; insertVictron,
-- its two helpers, auxValue and the loop over the readings of victron.go. The log lines and the
-- timeout's context are left out. What the code calls of the Victron library's payloads is the
-- record Payloads.
use litime_timescaledb_inser.Prelude.{
  ℕ, ℤ, Bool, true, false, List, [], ◌∷◌, Option, none, some, if◌then◌else◌, map,
}
use litime_timescaledb_inser.Strings.{Text}
use litime_timescaledb_inser.Litime.Metrics as LitimeMetrics
use litime_timescaledb_inser.Litime.Queue as Queue
use litime_timescaledb_inser.Victron.Metrics as VictronMetrics
use litime_timescaledb_inser.Victron.Collector.{Reading}
use litime_timescaledb_inser.Timescale.{
  Value, Statement, BatteryData, VictronMeasurement, BatteryMonitorMeasurement, insert_litime,
  insert_victron, insert_victron_battery_monitor,
}
pub mod Drain
pub mod Payload
pub mod Loops
pub mod Sample
mod Pipeline
mod Batteries
mod Tests

-- The fields and methods of the library's payloads that the program uses. A state, an error, an
-- aux input type and an alarm have a String method; `minutes` is the conversion of a duration's
-- Minutes() to int32.
pub record Payloads (F SolarCharger BatteryMonitor : Type 0) : Type 1 where
  pub ChargeState : Type 0
  pub ChargerError : Type 0
  pub AuxInput : Type 0
  pub Alarm : Type 0
  pub charge_state : SolarCharger → Option ChargeState
  pub charge_state_string : ChargeState → Text
  pub charger_error : SolarCharger → Option ChargerError
  pub charger_error_string : ChargerError → Text
  pub charger_voltage : SolarCharger → Option F
  pub battery_charging_current : SolarCharger → Option F
  pub yield_today : SolarCharger → Option F
  pub solar_power : SolarCharger → Option F
  pub external_device_load : SolarCharger → Option F
  pub monitor_voltage : BatteryMonitor → Option F
  pub battery_current : BatteryMonitor → Option F
  pub state_of_charge : BatteryMonitor → Option F
  pub consumed_ah : BatteryMonitor → Option F
  pub time_to_go : BatteryMonitor → Option ℤ
  pub minutes : ℤ → ℤ
  pub alarm_reason : BatteryMonitor → Alarm
  pub active : Alarm → Bool
  pub alarm_string : Alarm → Text
  pub aux_input_type : BatteryMonitor → AuxInput
  pub aux_input_string : AuxInput → Text
  pub starter_voltage : BatteryMonitor → Option F
  pub midpoint_voltage : BatteryMonitor → Option F
  pub temperature : BatteryMonitor → Option F

abbrev pub map_option {ℓ κ} : {A : Type ℓ} {B : Type κ} → (A → B) → Option A → Option B
map_option f none = none
map_option f (some x) = some (f x)

module _ {F SolarCharger BatteryMonitor : Type 0}
    (payloads : Payloads F SolarCharger BatteryMonitor) where
  unfoldable pub aux_value : BatteryMonitor → Option F
  aux_value monitor = elim (payloads.starter_voltage monitor) [
    | some v ↦ some v
    | none ↦ elim (payloads.midpoint_voltage monitor) [
      | some v ↦ some v
      | none ↦ payloads.temperature monitor
    ]
  ]

  unfoldable pub charger_measure :
      Reading SolarCharger BatteryMonitor → SolarCharger → VictronMeasurement F
  charger_measure reading charger = record {
    device_id = reading.device_id;
    observed_at = reading.observed_at;
    model_id = reading.model_id;
    model_name = reading.model_name;
    record_type = reading.record_type;
    charge_state = map_option payloads.charge_state_string (payloads.charge_state charger);
    charger_error = map_option payloads.charger_error_string (payloads.charger_error charger);
    battery_voltage = payloads.charger_voltage charger;
    battery_charging_current = payloads.battery_charging_current charger;
    yield_today = payloads.yield_today charger;
    solar_power = payloads.solar_power charger;
    external_device_load = payloads.external_device_load charger;
  }

  -- `if monitor.AlarmReason.Active() { … }`
  abbrev alarm_text : BatteryMonitor → Option Text
  alarm_text monitor =
      if payloads.active (payloads.alarm_reason monitor)
      then some (payloads.alarm_string (payloads.alarm_reason monitor))
      else none

  unfoldable pub monitor_measure :
      Reading SolarCharger BatteryMonitor → BatteryMonitor → BatteryMonitorMeasurement F
  unfolding aux_value
  monitor_measure reading monitor = record {
    device_id = reading.device_id;
    observed_at = reading.observed_at;
    model_id = reading.model_id;
    model_name = reading.model_name;
    record_type = reading.record_type;
    battery_voltage = payloads.monitor_voltage monitor;
    battery_current = payloads.battery_current monitor;
    state_of_charge = payloads.state_of_charge monitor;
    consumed_ah = payloads.consumed_ah monitor;
    time_to_go_minutes = map_option payloads.minutes (payloads.time_to_go monitor);
    alarm_reason = alarm_text monitor;
    aux_input_type = payloads.aux_input_string (payloads.aux_input_type monitor);
    aux_value = aux_value monitor;
  }

module _ {F D : Type 0} (exec : D → Statement → List (Value F) → D × Bool) where
  module _ {Data : Type 0} (fields : BatteryData F Data) where
    abbrev recorded : LitimeMetrics.Metrics → Text → D × Bool → D × LitimeMetrics.Metrics
    recorded metrics id (db, failed) = (db, LitimeMetrics.record_insert metrics id failed)

    unfoldable pub insert :
        D × LitimeMetrics.Metrics → Queue.Reading Data → D × LitimeMetrics.Metrics
    unfolding insert_litime LitimeMetrics.record_insert
    insert (db, metrics) reading =
        recorded metrics reading.battery_id
          (insert_litime exec fields db reading.battery_id reading.observed_at reading.data_of)

  module _ {SolarCharger BatteryMonitor : Type 0}
      (payloads : Payloads F SolarCharger BatteryMonitor) where
    abbrev counted : VictronMetrics.Metrics → Text → D × Bool → D × VictronMetrics.Metrics
    counted metrics id (db, failed) = (db, VictronMetrics.record_insert metrics id failed)

    unfoldable pub insert_solar_charger :
        D × VictronMetrics.Metrics
        → Reading SolarCharger BatteryMonitor
        → SolarCharger
        → D × VictronMetrics.Metrics
    unfolding charger_measure insert_victron VictronMetrics.record_insert
    insert_solar_charger (db, metrics) reading charger =
        counted metrics reading.device_id
          (insert_victron exec db (charger_measure payloads reading charger))

    unfoldable pub insert_battery_monitor :
        D × VictronMetrics.Metrics
        → Reading SolarCharger BatteryMonitor
        → BatteryMonitor
        → D × VictronMetrics.Metrics
    unfolding monitor_measure insert_victron_battery_monitor VictronMetrics.record_insert
    insert_battery_monitor (db, metrics) reading monitor =
        counted metrics reading.device_id
          (insert_victron_battery_monitor exec db (monitor_measure payloads reading monitor))

    -- The default case only logs.
    unfoldable pub insert_reading :
        D × VictronMetrics.Metrics
        → Reading SolarCharger BatteryMonitor
        → D × VictronMetrics.Metrics
    unfolding insert_solar_charger insert_battery_monitor
    insert_reading s reading = elim reading.solar_charger [
      | some charger ↦ insert_solar_charger s reading charger
      | none ↦ elim reading.battery_monitor [
        | some monitor ↦ insert_battery_monitor s reading monitor
        | none ↦ s
      ]
    ]

-- `for reading := range readings { … }` over what is received until the end of the channel.
module _ {A S : Type 0} (step : S → A → S) where
  unfoldable pub drain : List A → S → S
  drain [] s = s
  drain (reading ∷ rest) s = drain rest (step s reading)
