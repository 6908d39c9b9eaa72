-- ===== src/Service/Batteries.antt =====
-- The manager's queue between handleNotification and main's loop that writes the readings:
-- histories of notifications of all the batteries, receives by the loop and the close at the end of
-- Run, in any order.
use mathlib.Core.List.{append_assoc}
use litime_timescaledb_inser.Prelude.{
  ℕ, zero, suc, ℤ, ◌+◌, ◌≤◌, ◌≡◌, ◌≢◌, refl, sym, ap, subst, ◌∙◌, ◌⊎◌, inl, inr, Bool, true, false,
  ◌&&◌, List, [], ◌∷◌, ◌++◌, Option, none, some, Result, ok, err, ◌>>=◌, if◌then◌else◌, arith, ltb,
  length, Bool-cases, Option-cases,
}
use litime_timescaledb_inser.Strings.{Text, text_eq}
use litime_timescaledb_inser.Channel.{Channel, Panic, receive, close, receive-cases}
use litime_timescaledb_inser.Telemetry.{measure, measure-reported, total-measure}
use litime_timescaledb_inser.Litime.Metrics.{
  Metrics, Instrument, same, counted, notifications, dropped, parse_failures,
}
use litime_timescaledb_inser.Litime.Queue.{Reading, Queue, publish, close_readings}
use litime_timescaledb_inser.Litime.Notify.{Notification, handle_notification}
use litime_timescaledb_inser.Timescale.{Value, Statement, BatteryData}
use litime_timescaledb_inser.Service.{insert, drain}
use litime_timescaledb_inser.Service.Drain.{of_battery, tried, drain_counts}
pub mod Moves
pub mod Complete

-- A notification names its battery and what lastSeen of its connection is.
pub data Op : Type 0 where
  notified : Text → ℤ → Notification → Op
  received ended : Op

abbrev pub ends : List Op → ℕ
ends [] = 0
ends (ended ∷ os) = suc (ends os)
ends (notified id last n ∷ os) = ends os
ends (received ∷ os) = ends os

-- The queue and the metrics of the Manager, and the readings that the loop has received.
pub record History (Data : Type 0) : Type 0 where
  pub queue : Queue (Reading Data)
  pub metrics : Metrics
  pub taken : List (Reading Data)

abbrev pub is_some : {Data : Type 0} → Option Data → Bool
is_some none = false
is_some (some d) = true

-- Whether a notification that parses is refused for good.
abbrev pub is_late : Bool → Bool → Bool → ℕ
is_late closed parsed same_id = if closed && (parsed && same_id) then 1 else 0

module _ {Data : Type 0} where
  -- What the loop has got and what waits for it.
  abbrev pub readings_of : History Data → List (Reading Data)
  readings_of h = h.taken ++ h.queue.readings.items

  abbrev pub took : History Data → Option (Reading Data × Channel (Reading Data)) → History Data
  took h none = h
  took h (some (r, ch)) = record h {
    queue = record { readings = ch; closed = h.queue.closed };
    taken = h.taken ++ r ∷ [];
  }

  -- A history that can go on.
  pub record IsSound (h : History Data) : Type 0 where
    pub agree : h.queue.readings.closed ≡ h.queue.closed
    pub reported : h.metrics ≢ none

module _ {Data : Type 0} (parse : List ℕ → Option Data) where
  unfoldable pub step : History Data → Op → Result Panic (History Data)
  unfolding handle_notification receive close_readings
  step h (notified id last n) =
      handle_notification parse id
        (record { queue = h.queue; metrics = h.metrics; last_seen = last }) n
      >>= λ s. ok (record h { queue = s.queue; metrics = s.metrics })
  step h received = ok (took h (receive h.queue.readings))
  step h ended = close_readings h.queue >>= λ q. ok (record h { queue = q })

  unfoldable pub run : History Data → List Op → Result Panic (History Data)
  unfolding step
  run h [] = ok h
  run h (o ∷ os) = step h o >>= λ h'. run h' os

  abbrev pub parses : List ℕ → Bool
  parses bytes = is_some (parse bytes)

  -- How many notifications of a battery parse after the close; the Boolean says whether it has
  -- come.
  abbrev pub late : Text → Bool → List Op → ℕ
  late id closed [] = 0
  late id closed (notified j last n ∷ os) =
      is_late closed (parses n.bytes) (text_eq j id) + late id closed os
  late id closed (received ∷ os) = late id closed os
  late id closed (ended ∷ os) = late id true os
