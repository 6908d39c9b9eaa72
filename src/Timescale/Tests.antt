-- ===== src/Timescale/Tests.antt =====
-- The theorems on the inserts at concrete measurements. Floating-point numbers are natural numbers.
use litime_timescaledb_inser.Prelude.{
  ℕ, ◌≡◌, refl, arith, pos, List, [], ◌∷◌, none, some, get_elem?,
}
use litime_timescaledb_inser.Strings.{codes}
use litime_timescaledb_inser.Maps.{lookup}
use litime_timescaledb_inser.Timescale.{
  VictronMeasurement, BatteryMonitorMeasurement, BatteryData, Value, float, cell_name, digits,
  map_cell_voltages, insert_litime, insert_victron, insert_victron_battery_monitor,
}
use litime_timescaledb_inser.Timescale.Cells.{map_cell_voltages_lem}
use litime_timescaledb_inser.Timescale.Stored.{
  Has, store, litime_columns, victron_columns, battery_monitor_columns, insert_litime_stores,
  insert_victron_stores, insert_victron_battery_monitor_stores,
}

name_of_cell : cell_name 12 ≡ codes "cell_12"
unfolding digits
name_of_cell = refl

abbrev volts : List ℕ
volts = 33 ∷ 34 ∷ []

map_cell_voltages_lem_example : lookup (cell_name 1) (map_cell_voltages volts) ≡ get_elem? volts 1
map_cell_voltages_lem_example = map_cell_voltages_lem volts 1

-- A battery's data is one number, which every field shows.
abbrev field : ℕ → Value ℕ
field n = float n

abbrev fields : BatteryData ℕ ℕ
fields = record {
  total_voltage = field;
  cell_voltage_sum = field;
  current = field;
  mosfet_temp = field;
  cell_temp = field;
  remaining_ah = field;
  full_capacity_ah = field;
  protection_state = field;
  heat_state = field;
  balance_memory = field;
  failure_state = field;
  balancing_state = field;
  battery_state = field;
  soc = field;
  soh = field;
  discharges_count = field;
  discharges_ah_count = field;
  cell_voltages = λ n. n ∷ [];
}

insert_litime_stores_example :
    Has
      (insert_litime store fields [] (codes "attic") (pos 7) 13).0
      (litime_columns fields (codes "attic") (pos 7) 13)
insert_litime_stores_example = insert_litime_stores fields [] (codes "attic") (pos 7) 13

abbrev charger : VictronMeasurement ℕ
charger = record {
  device_id = codes "solar";
  observed_at = pos 5;
  model_id = 0xA042;
  model_name = codes "MPPT";
  record_type = 200;
  charge_state = some (codes "bulk");
  charger_error = none;
  battery_voltage = some 13;
  battery_charging_current = some 2;
  yield_today = none;
  solar_power = some 40;
  external_device_load = none;
}

insert_victron_stores_example : Has (insert_victron store [] charger).0 (victron_columns charger)
insert_victron_stores_example = insert_victron_stores charger [] (omega arith) (omega arith)

abbrev monitor : BatteryMonitorMeasurement ℕ
monitor = record {
  device_id = codes "shunt";
  observed_at = pos 5;
  model_id = 0xA389;
  model_name = codes "SmartShunt";
  record_type = 2;
  battery_voltage = some 13;
  battery_current = none;
  state_of_charge = none;
  consumed_ah = some 1;
  time_to_go_minutes = some (pos 90);
  alarm_reason = none;
  aux_input_type = codes "none";
  aux_value = none;
}

insert_victron_battery_monitor_stores_example :
    Has (insert_victron_battery_monitor store [] monitor).0 (battery_monitor_columns monitor)
insert_victron_battery_monitor_stores_example =
    insert_victron_battery_monitor_stores monitor [] (omega arith) (omega arith)
