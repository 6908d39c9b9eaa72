-- ===== src/Litime/Queue.antt =====
-- internal/litime/manager.go: the reading queue of the Manager, without the rest of its fields.
-- publish and closeReadings hold closeMu throughout, so each is one step here; Litime/Race shows
-- that the lock makes them so.
use litime_timescaledb_inser.Prelude.{
  ℕ, ℤ, Bool, true, false, Option, none, some, Result, ok, err, if◌then◌else◌, ◌>>=◌,
}
use litime_timescaledb_inser.Strings.{Text}
use litime_timescaledb_inser.Channel.{Channel, Panic, make, try_send, close}
pub mod Stream
pub mod Drain
mod Tests

-- One measurement with its battery; `observed_at` is in nanoseconds since 1970.
pub record Reading (Data : Type 0) : Type 0 where
  pub battery_id : Text
  pub observed_at : ℤ
  pub data_of : Data

pub data PublishResult : Type 0 where
  published dropped_queue_full dropped_shutting_down : PublishResult

pub record Queue (A : Type 0) : Type 0 where
  pub readings : Channel A
  pub closed : Bool

module _ {A : Type 0} where
  -- The queue of a new Manager.
  unfoldable pub new_queue : ℕ → Queue A
  unfolding make
  new_queue buffer_size = record { readings = make buffer_size; closed = false }

  abbrev sent : Queue A → Option (Channel A) → Queue A × PublishResult
  sent q (some ch) = (record q { readings = ch }, published)
  sent q none = (q, dropped_queue_full)

  unfoldable pub publish : Queue A → A → Result Panic (Queue A × PublishResult)
  unfolding try_send
  publish q reading =
      if q.closed
      then ok (q, dropped_shutting_down)
      else (try_send q.readings reading >>= λ r. ok (sent q r))

  unfoldable pub close_readings : Queue A → Result Panic (Queue A)
  unfolding close
  close_readings q = close q.readings >>= λ ch. ok (record { readings = ch; closed = true })
