-- ===== src/Litime/Backoff.antt =====
-- internal/litime/manager.go: the reconnect backoff.
use litime_timescaledb_inser.Prelude.{ℕ, ◌*◌, pos, if◌then◌else◌}
use litime_timescaledb_inser.Prelude.Int.{ltb_ℤ}
use litime_timescaledb_inser.Durations.{Duration, second, times}
pub mod Bounds
mod Tests

abbrev pub min_reconnect_backoff : Duration
min_reconnect_backoff = pos (5 * second)

abbrev pub max_reconnect_backoff : Duration
max_reconnect_backoff = pos (300 * second)

unfoldable pub next_backoff : Duration → Duration
unfolding times
next_backoff current =
    let next = times current (pos 2) in
    if ltb_ℤ max_reconnect_backoff next then max_reconnect_backoff else next
