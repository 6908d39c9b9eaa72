-- ===== src/Litime/Backoff/Tests.antt =====
-- The backoff's theorems at concrete durations.
use litime_timescaledb_inser.Prelude.{◌*◌, ◌^◌, ◌≡◌, pos, min}
use litime_timescaledb_inser.Durations.{second}
use litime_timescaledb_inser.Litime.Backoff.Bounds.{backoff_after, backoff_after_lem}

backoff_after_lem_example : backoff_after 6 ≡ pos (min (5 * second * 2 ^ 6) (300 * second))
backoff_after_lem_example = backoff_after_lem 6
