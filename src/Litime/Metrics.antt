-- ===== src/Litime/Metrics.antt =====
-- internal/litime/metrics.go: the recorders of the battery metrics.
use litime_timescaledb_inser.Prelude.{ℕ, Bool, if◌then◌else◌, ◌==◌}
use litime_timescaledb_inser.Strings.{Text}
use litime_timescaledb_inser.Telemetry.{Telemetry, measure, total}
pub mod Setup

-- The fields of Metrics.
pub data Instrument : Type 0 where
  connected notifications reconnects dropped parse_failures inserts insert_errors : Instrument

abbrev index : Instrument → ℕ
index connected = 0
index notifications = 1
index reconnects = 2
index dropped = 3
index parse_failures = 4
index inserts = 5
index insert_errors = 6

abbrev pub same : Instrument → Instrument → Bool
same i j = index i == index j

-- The calls so far, or a nil pointer.
abbrev pub Metrics : Type 0
Metrics = Telemetry Instrument

-- A counter's value for a battery.
abbrev pub counted : Instrument → Text → Metrics → ℕ
counted i battery_id m = total same i battery_id m

unfoldable pub record_connected : Metrics → Text → Bool → Metrics
record_connected m battery_id is_connected =
    measure m connected (if is_connected then 1 else 0) battery_id

unfoldable pub record_notification : Metrics → Text → Metrics
record_notification m battery_id = measure m notifications 1 battery_id

unfoldable pub record_reconnect : Metrics → Text → Metrics
record_reconnect m battery_id = measure m reconnects 1 battery_id

unfoldable pub record_dropped : Metrics → Text → Metrics
record_dropped m battery_id = measure m dropped 1 battery_id

unfoldable pub record_parse_failure : Metrics → Text → Metrics
record_parse_failure m battery_id = measure m parse_failures 1 battery_id

-- `failed` is `err != nil`.
unfoldable pub record_insert : Metrics → Text → Bool → Metrics
record_insert m battery_id failed =
    if failed then measure m insert_errors 1 battery_id else measure m inserts 1 battery_id
