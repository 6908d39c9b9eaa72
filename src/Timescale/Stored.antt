-- ===== src/Timescale/Stored.antt =====
-- What the inserts store under each column, when the database runs a statement by putting the
-- argument of each placeholder under the placeholder's column.
use litime_timescaledb_inser.Prelude.{
  ℕ, zero, suc, ℤ, pos, ◌≡◌, ◌<◌, ◌^◌, Bool, false, List, [], ◌∷◌, Option, none, some, get_elem?,
  arith,
}
use litime_timescaledb_inser.Strings.{Text, codes, text_eq}
use litime_timescaledb_inser.Maps.{Map, lookup}
use litime_timescaledb_inser.Timescale.{
  Value, time, text, int, floats, Statement, VictronMeasurement, BatteryMonitorMeasurement,
  BatteryData, to_signed, float_ptr, text_ptr, int_ptr, insert_litime, insert_victron,
  insert_victron_battery_monitor, map_cell_voltages,
}

-- The number that Go's conversion to a wider signed type gives is the same number.
model_id-kept : (n : ℕ) → n < 2 ^ 16 → to_signed 32 n ≡ pos n
model_id-kept n h = ground arith

record_type-kept : (n : ℕ) → n < 2 ^ 8 → to_signed 16 n ≡ pos n
record_type-kept n h = ground arith

-- A database that holds the rows inserted, newest first, and never fails.
abbrev pub Rows : Type 0 → Type 0
Rows F = List (Map (Option (Value F)))

module _ {F : Type 0} where
  -- The argument of placeholder n, counted from 1.
  abbrev argument : List (Value F) → ℕ → Option (Value F)
  argument args zero = none
  argument args (suc n) = get_elem? args n

  abbrev row : List Text → List ℕ → List (Value F) → Map (Option (Value F))
  row (c ∷ cs) (n ∷ ns) args = (c, argument args n) ∷ row cs ns args
  row _ _ args = []

  abbrev pub store : Rows F → Statement → List (Value F) → Rows F × Bool
  store db s args = (row s.columns s.placeholders args ∷ db, false)

  abbrev column : Text → Rows F → Option (Option (Value F))
  column c [] = none
  column c (r ∷ rs) = lookup c r

  -- The row inserted last has these values under these columns.
  abbrev pub Has : Rows F → Map (Value F) → Type 0
  Has db [] = Unit
  Has db ((c, v) ∷ m) = (column c db ≡ some (some v)) × Has db m

  abbrev pub litime_columns : {Data : Type 0} → BatteryData F Data → Text → ℤ → Data → Map (Value F)
  litime_columns fields battery_id observed_at measure =
      (codes "cell_voltages", floats (map_cell_voltages (fields.cell_voltages measure)))
      ∷ (codes "discharges_ah_count", fields.discharges_ah_count measure)
      ∷ (codes "discharges_count", fields.discharges_count measure)
      ∷ (codes "soh", fields.soh measure)
      ∷ (codes "soc", fields.soc measure)
      ∷ (codes "battery_state", fields.battery_state measure)
      ∷ (codes "balancing_state", fields.balancing_state measure)
      ∷ (codes "failure_state", fields.failure_state measure)
      ∷ (codes "balance_memory", fields.balance_memory measure)
      ∷ (codes "heat_state", fields.heat_state measure)
      ∷ (codes "protection_state", fields.protection_state measure)
      ∷ (codes "full_capacity_ah", fields.full_capacity_ah measure)
      ∷ (codes "remaining_ah", fields.remaining_ah measure)
      ∷ (codes "cell_temp", fields.cell_temp measure)
      ∷ (codes "mosfet_temp", fields.mosfet_temp measure)
      ∷ (codes "current", fields.current measure)
      ∷ (codes "cell_voltage_sum", fields.cell_voltage_sum measure)
      ∷ (codes "total_voltage", fields.total_voltage measure)
      ∷ (codes "battery_id", text battery_id)
      ∷ (codes "time", time observed_at)
      ∷ []

  abbrev pub victron_columns : VictronMeasurement F → Map (Value F)
  victron_columns m =
      (codes "external_device_load", float_ptr m.external_device_load)
      ∷ (codes "solar_power", float_ptr m.solar_power)
      ∷ (codes "yield_today", float_ptr m.yield_today)
      ∷ (codes "battery_charging_current", float_ptr m.battery_charging_current)
      ∷ (codes "battery_voltage", float_ptr m.battery_voltage)
      ∷ (codes "charger_error", text_ptr m.charger_error)
      ∷ (codes "charge_state", text_ptr m.charge_state)
      ∷ (codes "record_type", int (pos m.record_type))
      ∷ (codes "model_name", text m.model_name)
      ∷ (codes "model_id", int (pos m.model_id))
      ∷ (codes "device_id", text m.device_id)
      ∷ (codes "time", time m.observed_at)
      ∷ []

  abbrev pub battery_monitor_columns : BatteryMonitorMeasurement F → Map (Value F)
  battery_monitor_columns m =
      (codes "aux_value", float_ptr m.aux_value)
      ∷ (codes "aux_input_type", text m.aux_input_type)
      ∷ (codes "alarm_reason", text_ptr m.alarm_reason)
      ∷ (codes "time_to_go_minutes", int_ptr m.time_to_go_minutes)
      ∷ (codes "consumed_ah", float_ptr m.consumed_ah)
      ∷ (codes "state_of_charge", float_ptr m.state_of_charge)
      ∷ (codes "battery_current", float_ptr m.battery_current)
      ∷ (codes "battery_voltage", float_ptr m.battery_voltage)
      ∷ (codes "record_type", int (pos m.record_type))
      ∷ (codes "model_name", text m.model_name)
      ∷ (codes "model_id", int (pos m.model_id))
      ∷ (codes "device_id", text m.device_id)
      ∷ (codes "time", time m.observed_at)
      ∷ []

  -- Every column of the table of batteries gets the measurement's field of that name, or the ID or
  -- the time that the caller passed, where a statement puts the argument of each placeholder under
  -- the placeholder's column.
  pub insert_litime_stores :
      {Data : Type 0} (fields : BatteryData F Data) (db : Rows F) (battery_id : Text)
      (observed_at : ℤ) (measure : Data)
      → Has
          (insert_litime store fields db battery_id observed_at measure).0
          (litime_columns fields battery_id observed_at measure)
  unfolding insert_litime lookup text_eq
  insert_litime_stores fields db battery_id observed_at measure = ground arith

  -- Every column of the table of solar chargers gets the measurement's field of that name, the
  -- unsigned model and record type as the same numbers, and null for a nil pointer, where a
  -- statement puts the argument of each placeholder under the placeholder's column. The model is a
  -- number of 16 bits and the record type one of 8.
  pub insert_victron_stores :
      (m : VictronMeasurement F) (db : Rows F)
      → m.model_id < 2 ^ 16
      → m.record_type < 2 ^ 8
      → Has (insert_victron store db m).0 (victron_columns m)
  unfolding insert_victron lookup text_eq
  insert_victron_stores m db h k =
      ground (arith, model_id-kept m.model_id h, record_type-kept m.record_type k)

  -- Every column of the table of battery monitors gets the measurement's field of that name, the
  -- unsigned model and record type as the same numbers, and null for a nil pointer, where a
  -- statement puts the argument of each placeholder under the placeholder's column. The model is a
  -- number of 16 bits and the record type one of 8.
  pub insert_victron_battery_monitor_stores :
      (m : BatteryMonitorMeasurement F) (db : Rows F)
      → m.model_id < 2 ^ 16
      → m.record_type < 2 ^ 8
      → Has (insert_victron_battery_monitor store db m).0 (battery_monitor_columns m)
  unfolding insert_victron_battery_monitor lookup text_eq
  insert_victron_battery_monitor_stores m db h k =
      ground (arith, model_id-kept m.model_id h, record_type-kept m.record_type k)
