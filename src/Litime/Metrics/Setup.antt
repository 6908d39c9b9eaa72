-- ===== src/Litime/Metrics/Setup.antt =====
-- internal/litime/metrics.go: NewMetrics. The instruments' type is an argument.
use litime_timescaledb_inser.Prelude.{Result, ok, ◌>>=◌}
use litime_timescaledb_inser.Strings.{codes}
use litime_timescaledb_inser.Registration.{Create, created}

pub record Instruments (H : Type 0) : Type 0 where
  pub connected : H
  pub notifications : H
  pub reconnects : H
  pub dropped : H
  pub parse_failures : H
  pub inserts : H
  pub insert_errors : H

unfoldable pub new_metrics : {H E : Type 0} → Create H E → Create H E → Result E (Instruments H)
new_metrics int64_gauge int64_counter = do
  connected ← created (
      int64_gauge (codes "litime.battery.connected")
        (codes "Whether a battery is currently connected (1) or not (0)"))
  notifications ← created (
      int64_counter (codes "litime.battery.notifications")
        (codes "Readings received from a battery"))
  reconnects ← created (
      int64_counter (codes "litime.battery.reconnects")
        (codes "Times a battery connection was re-established"))
  dropped ← created (
      int64_counter (codes "litime.battery.readings_dropped")
        (codes "Readings discarded because the write queue was full"))
  parse_failures ← created (
      int64_counter (codes "litime.battery.parse_failures")
        (codes "Notifications that could not be parsed"))
  inserts ←
      created (int64_counter (codes "litime.inserts") (codes "Readings written to the database"))
  insert_errors ← created (
      int64_counter (codes "litime.insert_errors")
        (codes "Readings that failed to be written to the database"))
  ok (record {
    connected = connected;
    notifications = notifications;
    reconnects = reconnects;
    dropped = dropped;
    parse_failures = parse_failures;
    inserts = inserts;
    insert_errors = insert_errors;
  })
