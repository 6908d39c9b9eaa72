-- ===== src/Victron/Metrics.antt =====
-- internal/victron/metrics.go: the recorders of the device metrics.
use litime_timescaledb_inser.Prelude.{ℕ, Bool, [], if◌then◌else◌, ◌==◌, ◌&&◌}
use litime_timescaledb_inser.Strings.{Text, text_eq}
use litime_timescaledb_inser.Telemetry.{Telemetry, measure}
pub mod Setup

-- The fields of Metrics. The counter of unsupported records has a second label, the record type.
pub data Instrument : Type 0 where
  readings missed decrypt_failures decode_failures scan_failures dropped inserts insert_errors :
      Instrument
  unsupported : Text → Instrument

abbrev index : Instrument → ℕ
index readings = 0
index missed = 1
index decrypt_failures = 2
index decode_failures = 3
index scan_failures = 4
index dropped = 5
index inserts = 6
index insert_errors = 7
index (unsupported record_type) = 8

abbrev kind : Instrument → Text
kind (unsupported record_type) = record_type
kind _ = []

abbrev pub same : Instrument → Instrument → Bool
same i j = index i == index j && text_eq (kind i) (kind j)

-- The calls so far, or a nil pointer.
abbrev pub Metrics : Type 0
Metrics = Telemetry Instrument

unfoldable pub record_reading : Metrics → Text → Metrics
record_reading m device_id = measure m readings 1 device_id

unfoldable pub record_missed : Metrics → Text → Metrics
record_missed m device_id = measure m missed 1 device_id

unfoldable pub record_unsupported : Metrics → Text → Text → Metrics
record_unsupported m device_id record_type = measure m (unsupported record_type) 1 device_id

unfoldable pub record_decrypt_failure : Metrics → Text → Metrics
record_decrypt_failure m device_id = measure m decrypt_failures 1 device_id

unfoldable pub record_decode_failure : Metrics → Text → Metrics
record_decode_failure m device_id = measure m decode_failures 1 device_id

-- This counter has no label.
unfoldable pub record_scan_failure : Metrics → Metrics
record_scan_failure m = measure m scan_failures 1 []

unfoldable pub record_dropped : Metrics → Text → Metrics
record_dropped m device_id = measure m dropped 1 device_id

-- `failed` is `err != nil`.
unfoldable pub record_insert : Metrics → Text → Bool → Metrics
record_insert m device_id failed =
    if failed then measure m insert_errors 1 device_id else measure m inserts 1 device_id
