-- ===== src/Victron/Collector.antt =====
-- internal/victron/collector.go: handle and publish. What the code calls of the Victron library is
-- the record Library. The log lines are left out.
use litime_timescaledb_inser.Prelude.{
  ℕ, ℤ, Bool, true, false, List, [], ◌∷◌, ◌++◌, Option, none, some, Result, ok, err, ◌>>=◌,
  if◌then◌else◌, ◌==◌, ◌||◌,
}
use litime_timescaledb_inser.Strings.{Text}
use litime_timescaledb_inser.Channel.{Channel, Panic, make, try_send, close}
use litime_timescaledb_inser.Victron.Device.{Device}
use litime_timescaledb_inser.Victron.Metrics.{
  Metrics, record_reading, record_unsupported, record_decrypt_failure, record_decode_failure,
  record_dropped,
}
pub mod Sightings
pub mod Scan
pub mod Missed
pub mod Run
mod Tests

abbrev pub Bytes : Type 0
Bytes = List ℕ

-- The types and functions of the Victron library. A record's type and model are a uint8 and a
-- uint16; `decrypt` returns the payload or an error, for which the program only logs differently.
pub record Library : Type 1 where
  pub Record : Type 0
  pub SolarCharger : Type 0
  pub BatteryMonitor : Type 0
  pub company_id : ℕ
  pub record_solar_charger : ℕ
  pub record_battery_monitor : ℕ
  pub parse_record : Bytes → Option Record
  pub record_type : Record → ℕ
  pub model_id : Record → ℕ
  pub type_string : ℕ → Text
  pub decrypt : Record → Bytes → Option Bytes
  pub model_name : ℕ → Text
  pub parse_solar_charger : Bytes → Option SolarCharger
  pub parse_battery_monitor : Bytes → Option BatteryMonitor

-- One decoded advertisement.
pub record Reading (S B : Type 0) : Type 0 where
  pub device_id : Text
  pub observed_at : ℤ
  pub model_id : ℕ
  pub model_name : Text
  pub record_type : ℕ
  pub solar_charger : Option S
  pub battery_monitor : Option B

-- What a scan reports of a device: its address, and the data that it sends under a company's number.
pub record Discovered (Address : Type 0) : Type 0 where
  pub address : Address
  pub manufacturer_data : ℕ → Option Bytes

-- The queue of the Collector and its metrics.
pub record Collected (A : Type 0) : Type 0 where
  pub readings : Channel A
  pub closed : Bool
  pub metrics : Metrics

module _ {A : Type 0} where
  abbrev pub offered : Collected A → Option (Channel A) → Collected A × Bool
  offered c (some ch) = (record c { readings = ch }, true)
  offered c none = (c, false)

  unfoldable pub publish : Collected A → A → Result Panic (Collected A × Bool)
  unfolding try_send
  publish c reading =
      if c.closed then ok (c, false) else (try_send c.readings reading >>= λ r. ok (offered c r))

  unfoldable pub close_readings : Collected A → Result Panic (Collected A)
  unfolding close
  close_readings c = close c.readings >>= λ ch. ok (record c { readings = ch; closed = true })

module _ (lib : Library) where
  open lib use {
    Record, SolarCharger, BatteryMonitor, company_id, record_solar_charger, record_battery_monitor,
    parse_record, record_type, type_string, decrypt, parse_solar_charger, parse_battery_monitor,
  }

  abbrev pub LibReading : Type 0
  LibReading = Reading SolarCharger BatteryMonitor

  abbrev pub State : Type 0
  State = Collected LibReading

  -- The reading before its payload is filled in.
  unfoldable pub bare_reading : Text → ℤ → Record → LibReading
  bare_reading device_id now r = record {
    device_id = device_id;
    observed_at = now;
    model_id = lib.model_id r;
    model_name = lib.model_name (lib.model_id r);
    record_type = record_type r;
    solar_charger = none;
    battery_monitor = none;
  }

  -- The second switch over the record type, which has no default case.
  unfoldable pub fill_payload : Record → Bytes → LibReading → Option LibReading
  fill_payload r payload reading =
      if record_type r == record_solar_charger
      then elim (parse_solar_charger payload) [
        | none ↦ none
        | some charger ↦ some (record reading { solar_charger = some charger })
      ]
      else if record_type r == record_battery_monitor
      then elim (parse_battery_monitor payload) [
        | none ↦ none
        | some monitor ↦ some (record reading { battery_monitor = some monitor })
      ]
      else some reading

  module _ (device_id : Text) where
    abbrev pub count_publish : State × Bool → State × Bool
    count_publish (c, true) = (record c { metrics = record_reading c.metrics device_id }, true)
    count_publish (c, false) = (record c { metrics = record_dropped c.metrics device_id }, true)

    -- From the payload on.
    unfoldable pub handle_filled : State → Option LibReading → Result Panic (State × Bool)
    unfolding publish record_reading record_dropped record_decode_failure
    handle_filled c none =
        ok (record c { metrics = record_decode_failure c.metrics device_id }, true)
    handle_filled c (some reading) = publish c reading >>= λ r. ok (count_publish r)

    -- From the record on; `supported` is the first switch over its type.
    unfoldable pub handle_record : State → Bytes → ℤ → Record → Result Panic (State × Bool)
    unfolding handle_filled fill_payload bare_reading record_unsupported record_decrypt_failure
    handle_record c key now r =
        let supported =
          record_type r == record_solar_charger || record_type r == record_battery_monitor in
        if supported
        then elim (decrypt r key) [
          | none ↦ ok (record c { metrics = record_decrypt_failure c.metrics device_id }, true)
          | some payload ↦ handle_filled c (fill_payload r payload (bare_reading device_id now r))
        ]
        else ok (
          record c {
            metrics = record_unsupported c.metrics device_id (type_string (record_type r));
          },
          true,
        )

  module _ {Address : Type 0} where
    unfoldable pub handle :
        State → Device Bytes → ℤ → Discovered Address → Result Panic (State × Bool)
    unfolding handle_record
    handle c device now found = elim (found.manufacturer_data company_id) [
      | none ↦ ok (c, false)
      | some bytes ↦ elim (parse_record bytes) [
        | none ↦ ok (c, false)
        | some r ↦ handle_record device.id c device.key now r
      ]
    ]
