-- ===== src/Litime/Notify.antt =====
-- internal/litime/manager.go: handleNotification. The parser of the Bluetooth library is the
-- argument `parse`; the two readings of the clock are arguments, in nanoseconds since 1970. The log
-- lines are left out.
use litime_timescaledb_inser.Prelude.{
  ℕ, ℤ, Bool, true, false, Option, none, some, Result, ok, err, ◌>>=◌, List, [], ◌∷◌,
}
use litime_timescaledb_inser.Strings.{Text}
use litime_timescaledb_inser.Channel.{Panic}
use litime_timescaledb_inser.Litime.Metrics.{
  Metrics, record_notification, record_parse_failure, record_dropped,
}
use litime_timescaledb_inser.Litime.Queue.{
  Reading, Queue, PublishResult, published, dropped_queue_full, dropped_shutting_down, publish,
}
pub mod Accounts
mod Tests

-- What a callback of one connection writes to: the queue and the metrics of the Manager, and the
-- connection's own lastSeen.
pub record Shared (Data : Type 0) : Type 0 where
  pub queue : Queue (Reading Data)
  pub metrics : Metrics
  pub last_seen : ℤ

-- A notification, with the two times that its handling reads.
pub record Notification : Type 0 where
  pub bytes : List ℕ
  pub seen_at : ℤ
  pub observed_at : ℤ

module _ {Data : Type 0} (parse : List ℕ → Option Data) (battery_id : Text) where
  -- The switch on what became of the reading.
  unfoldable pub settle : Shared Data → Queue (Reading Data) × PublishResult → Shared Data
  unfolding record_dropped
  settle s (q, published) = record s { queue = q }
  settle s (q, dropped_queue_full) = record s {
    queue = q;
    metrics = record_dropped s.metrics battery_id;
  }
  settle s (q, dropped_shutting_down) = record s { queue = q }

  unfoldable pub handle_parsed : Shared Data → Notification → Data → Result Panic (Shared Data)
  unfolding record_notification settle
  handle_parsed s n measured =
      let seen = record s {
        last_seen = n.seen_at;
        metrics = record_notification s.metrics battery_id;
      } in
      publish seen.queue
        (record { battery_id = battery_id; observed_at = n.observed_at; data_of = measured })
      >>= λ r. ok (settle seen r)

  unfoldable pub handle_notification : Shared Data → Notification → Result Panic (Shared Data)
  unfolding handle_parsed record_parse_failure
  handle_notification s n = elim (parse n.bytes) [
    | none ↦ ok (record s { metrics = record_parse_failure s.metrics battery_id })
    | some measured ↦ handle_parsed s n measured
  ]

  -- One notification after another, with the queue filling and nobody receiving.
  unfoldable pub handle_all : Shared Data → List Notification → Result Panic (Shared Data)
  handle_all s [] = ok s
  handle_all s (n ∷ ns) = handle_notification s n >>= λ t. handle_all t ns
