-- ===== src/Timescale.antt =====
-- internal/timescale/timescale.go: the three inserts and the map of cell voltages, and the
-- statements of internal/timescale/queries/. A floating-point number is a type F that is only
-- passed on. Pool.Exec is a parameter, which returns the new state of the database and whether it
-- failed.
use litime_timescaledb_inser.Prelude.{
  ℕ, zero, suc, ℤ, pos, negsuc, ◌+◌, ◌-◌, ◌/◌, ◌%◌, ◌^◌, Bool, List, [], ◌∷◌, ◌++◌, Option, none,
  some, if◌then◌else◌, ltb, get_elem?,
}
use litime_timescaledb_inser.Strings.{Text, codes}
use litime_timescaledb_inser.Maps.{Map, insert}
pub mod Client
mod Cells
mod Stored
mod Tests

-- An argument of Exec, as the driver sends it. A nil pointer is sent as `null`.
pub data Value (F : Type 0) : Type 0 where
  time : ℤ → Value F
  text : Text → Value F
  int : ℤ → Value F
  float : F → Value F
  floats : Map F → Value F
  null : Value F

-- A statement's columns and the numbers of the placeholders that stand for their values.
pub record Statement : Type 0 where
  pub columns : List Text
  pub placeholders : List ℕ

-- `VALUES ($1, …, $n)`
abbrev count_up : ℕ → ℕ → List ℕ
count_up zero n = []
count_up (suc k) n = n ∷ count_up k (suc n)

abbrev pub insert_litime_statement : Statement
insert_litime_statement = record {
  columns =
      codes "time"
      ∷ codes "battery_id"
      ∷ codes "total_voltage"
      ∷ codes "cell_voltage_sum"
      ∷ codes "current"
      ∷ codes "mosfet_temp"
      ∷ codes "cell_temp"
      ∷ codes "remaining_ah"
      ∷ codes "full_capacity_ah"
      ∷ codes "protection_state"
      ∷ codes "heat_state"
      ∷ codes "balance_memory"
      ∷ codes "failure_state"
      ∷ codes "balancing_state"
      ∷ codes "battery_state"
      ∷ codes "soc"
      ∷ codes "soh"
      ∷ codes "discharges_count"
      ∷ codes "discharges_ah_count"
      ∷ codes "cell_voltages"
      ∷ [];
  placeholders = count_up 20 1;
}

abbrev pub insert_victron_statement : Statement
insert_victron_statement = record {
  columns =
      codes "time"
      ∷ codes "device_id"
      ∷ codes "model_id"
      ∷ codes "model_name"
      ∷ codes "record_type"
      ∷ codes "charge_state"
      ∷ codes "charger_error"
      ∷ codes "battery_voltage"
      ∷ codes "battery_charging_current"
      ∷ codes "yield_today"
      ∷ codes "solar_power"
      ∷ codes "external_device_load"
      ∷ [];
  placeholders = count_up 12 1;
}

abbrev pub insert_battery_monitor_statement : Statement
insert_battery_monitor_statement = record {
  columns =
      codes "time"
      ∷ codes "device_id"
      ∷ codes "model_id"
      ∷ codes "model_name"
      ∷ codes "record_type"
      ∷ codes "battery_voltage"
      ∷ codes "battery_current"
      ∷ codes "state_of_charge"
      ∷ codes "consumed_ah"
      ∷ codes "time_to_go_minutes"
      ∷ codes "alarm_reason"
      ∷ codes "aux_input_type"
      ∷ codes "aux_value"
      ∷ [];
  placeholders = count_up 13 1;
}

-- Go's conversion of an unsigned number to a signed type of w bits, with its wrap-around.
abbrev pub to_signed : ℕ → ℕ → ℤ
to_signed w n = let r = n % 2 ^ w in if ltb r (2 ^ (w - 1)) then pos r else negsuc (2 ^ w - r - 1)

-- The pointers as arguments.
module _ {F : Type 0} where
  abbrev pub float_ptr : Option F → Value F
  float_ptr none = null
  float_ptr (some x) = float x

  abbrev pub text_ptr : Option Text → Value F
  text_ptr none = null
  text_ptr (some s) = text s

  abbrev pub int_ptr : Option ℤ → Value F
  int_ptr none = null
  int_ptr (some n) = int n

-- fmt.Sprintf("%d", n); `fuel` bounds the number of digits, and n suffices.
unfoldable pub digits : ℕ → ℕ → Text
digits zero n = (b'0' + n) ∷ []
digits (suc fuel) n =
    let rest = digits fuel (n / 10) in
    if ltb n 10 then (b'0' + n) ∷ [] else rest ++ (b'0' + n % 10) ∷ []

abbrev pub decimal : ℕ → Text
decimal n = digits n n

-- fmt.Sprintf("cell_%d", i)
abbrev pub cell_name : ℕ → Text
cell_name i = codes "cell_" ++ decimal i

module _ {F : Type 0} where
  -- The loop of mapCellVoltages from index i on.
  unfoldable pub add_cells : ℕ → List F → Map F → Map F
  unfolding insert digits
  add_cells i [] m = m
  add_cells i (v ∷ vs) m = add_cells (suc i) vs (insert (cell_name i) v m)

  unfoldable pub map_cell_voltages : List F → Map F
  unfolding add_cells
  map_cell_voltages vs = add_cells 0 vs []

pub record VictronMeasurement (F : Type 0) : Type 0 where
  pub device_id : Text
  pub observed_at : ℤ
  pub model_id : ℕ
  pub model_name : Text
  pub record_type : ℕ
  pub charge_state : Option Text
  pub charger_error : Option Text
  pub battery_voltage : Option F
  pub battery_charging_current : Option F
  pub yield_today : Option F
  pub solar_power : Option F
  pub external_device_load : Option F

pub record BatteryMonitorMeasurement (F : Type 0) : Type 0 where
  pub device_id : Text
  pub observed_at : ℤ
  pub model_id : ℕ
  pub model_name : Text
  pub record_type : ℕ
  pub battery_voltage : Option F
  pub battery_current : Option F
  pub state_of_charge : Option F
  pub consumed_ah : Option F
  pub time_to_go_minutes : Option ℤ
  pub alarm_reason : Option Text
  pub aux_input_type : Text
  pub aux_value : Option F

-- The fields of the library's LiTimeBatteryData. How the driver sends one is the library's and the
-- driver's matter, so that all but the cell voltages are values already.
pub record BatteryData (F Data : Type 0) : Type 0 where
  pub total_voltage : Data → Value F
  pub cell_voltage_sum : Data → Value F
  pub current : Data → Value F
  pub mosfet_temp : Data → Value F
  pub cell_temp : Data → Value F
  pub remaining_ah : Data → Value F
  pub full_capacity_ah : Data → Value F
  pub protection_state : Data → Value F
  pub heat_state : Data → Value F
  pub balance_memory : Data → Value F
  pub failure_state : Data → Value F
  pub balancing_state : Data → Value F
  pub battery_state : Data → Value F
  pub soc : Data → Value F
  pub soh : Data → Value F
  pub discharges_count : Data → Value F
  pub discharges_ah_count : Data → Value F
  pub cell_voltages : Data → List F

module _ {F D : Type 0} (exec : D → Statement → List (Value F) → D × Bool) where
  unfoldable pub insert_litime :
      {Data : Type 0} → BatteryData F Data → D → Text → ℤ → Data → D × Bool
  unfolding map_cell_voltages
  insert_litime fields db battery_id observed_at measure = exec db insert_litime_statement (
      time observed_at
      ∷ text battery_id
      ∷ fields.total_voltage measure
      ∷ fields.cell_voltage_sum measure
      ∷ fields.current measure
      ∷ fields.mosfet_temp measure
      ∷ fields.cell_temp measure
      ∷ fields.remaining_ah measure
      ∷ fields.full_capacity_ah measure
      ∷ fields.protection_state measure
      ∷ fields.heat_state measure
      ∷ fields.balance_memory measure
      ∷ fields.failure_state measure
      ∷ fields.balancing_state measure
      ∷ fields.battery_state measure
      ∷ fields.soc measure
      ∷ fields.soh measure
      ∷ fields.discharges_count measure
      ∷ fields.discharges_ah_count measure
      ∷ floats (map_cell_voltages (fields.cell_voltages measure))
      ∷ [])

  unfoldable pub insert_victron : D → VictronMeasurement F → D × Bool
  insert_victron db measure = exec db insert_victron_statement (
      time measure.observed_at
      ∷ text measure.device_id
      ∷ int (to_signed 32 measure.model_id)
      ∷ text measure.model_name
      ∷ int (to_signed 16 measure.record_type)
      ∷ text_ptr measure.charge_state
      ∷ text_ptr measure.charger_error
      ∷ float_ptr measure.battery_voltage
      ∷ float_ptr measure.battery_charging_current
      ∷ float_ptr measure.yield_today
      ∷ float_ptr measure.solar_power
      ∷ float_ptr measure.external_device_load
      ∷ [])

  unfoldable pub insert_victron_battery_monitor : D → BatteryMonitorMeasurement F → D × Bool
  insert_victron_battery_monitor db measure = exec db insert_battery_monitor_statement (
      time measure.observed_at
      ∷ text measure.device_id
      ∷ int (to_signed 32 measure.model_id)
      ∷ text measure.model_name
      ∷ int (to_signed 16 measure.record_type)
      ∷ float_ptr measure.battery_voltage
      ∷ float_ptr measure.battery_current
      ∷ float_ptr measure.state_of_charge
      ∷ float_ptr measure.consumed_ah
      ∷ int_ptr measure.time_to_go_minutes
      ∷ text_ptr measure.alarm_reason
      ∷ text measure.aux_input_type
      ∷ float_ptr measure.aux_value
      ∷ [])
