-- ===== src/Service/Sample.antt =====
-- A library, its payloads and a reading of a device, for runs at concrete inputs.
use litime_timescaledb_inser.Prelude.{ℕ, pos, false, [], ◌∷◌, none, some}
use litime_timescaledb_inser.Strings.{codes}
use litime_timescaledb_inser.Victron.Collector.{Library, LibReading}
use litime_timescaledb_inser.Timescale.{Value, BatteryData, float}
use litime_timescaledb_inser.Service.{Payloads}

abbrev field : ℕ → Value ℕ
field n = float n

abbrev pub fields : BatteryData ℕ ℕ
fields = record {
  total_voltage = field;
  cell_voltage_sum = field;
  current = field;
  mosfet_temp = field;
  cell_temp = field;
  remaining_ah = field;
  full_capacity_ah = field;
  protection_state = field;
  heat_state = field;
  balance_memory = field;
  failure_state = field;
  balancing_state = field;
  battery_state = field;
  soc = field;
  soh = field;
  discharges_count = field;
  discharges_ah_count = field;
  cell_voltages = λ n. n ∷ [];
}

-- A library in which a record is its type and a payload one number.
abbrev pub lib : Library
lib = record {
  Record = ℕ;
  SolarCharger = ℕ;
  BatteryMonitor = ℕ;
  company_id = 737;
  record_solar_charger = 1;
  record_battery_monitor = 2;
  parse_record = λ bytes. some 1;
  record_type = λ r. r;
  model_id = λ r. 100;
  type_string = λ t. [];
  decrypt = λ r key. some key;
  model_name = λ m. [];
  parse_solar_charger = λ p. some 5;
  parse_battery_monitor = λ p. some 6;
}

abbrev pub payloads : Payloads ℕ ℕ ℕ
payloads = record {
  ChargeState = ℕ;
  ChargerError = ℕ;
  AuxInput = ℕ;
  Alarm = ℕ;
  charge_state = λ s. none;
  charge_state_string = λ c. [];
  charger_error = λ s. none;
  charger_error_string = λ c. [];
  charger_voltage = λ s. some s;
  battery_charging_current = λ s. none;
  yield_today = λ s. none;
  solar_power = λ s. none;
  external_device_load = λ s. none;
  monitor_voltage = λ m. some m;
  battery_current = λ m. none;
  state_of_charge = λ m. none;
  consumed_ah = λ m. none;
  time_to_go = λ m. none;
  minutes = λ d. d;
  alarm_reason = λ m. 0;
  active = λ a. false;
  alarm_string = λ a. [];
  aux_input_type = λ m. 0;
  aux_input_string = λ a. [];
  starter_voltage = λ m. none;
  midpoint_voltage = λ m. none;
  temperature = λ m. none;
}

abbrev pub charged : LibReading lib
charged = record {
  device_id = codes "solar";
  observed_at = pos 5;
  model_id = 100;
  model_name = [];
  record_type = 1;
  solar_charger = some 5;
  battery_monitor = none;
}
