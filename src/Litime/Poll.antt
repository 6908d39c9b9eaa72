-- ===== src/Litime/Poll.antt =====
-- internal/litime/manager.go: pollUntilStale. What happens during a connection is a list of
-- events: a notification that stores lastSeen, a tick of the ticker with the result of QueryData
-- and the clock read for the silence, or the cancellation of the context. Times are in nanoseconds
-- since 1970.
use litime_timescaledb_inser.Prelude.{
  Bool, true, false, List, [], ◌∷◌, Option, none, some, ℤ, if◌then◌else◌,
}
use litime_timescaledb_inser.Prelude.Int.{◌-ℤ◌, ltb_ℤ}
use litime_timescaledb_inser.Durations.{Duration, second, rounded}
pub mod Silence
mod Tests

pub data PollEvent : Type 0 where
  seen : ℤ → PollEvent
  ticked : Bool → ℤ → PollEvent
  cancelled : PollEvent

-- Why polling ended: the three texts that are returned.
pub data Reason : Type 0 where
  shutting_down query_failed : Reason
  no_reading : Duration → Reason

-- `none`: the events are over and the loop still runs.
unfoldable pub poll_until_stale : Duration → ℤ → List PollEvent → Option Reason
unfolding ◌-ℤ◌ rounded
poll_until_stale stale last_seen [] = none
poll_until_stale stale last_seen (cancelled ∷ events) = some shutting_down
poll_until_stale stale last_seen (seen t ∷ events) = poll_until_stale stale t events
poll_until_stale stale last_seen (ticked false now ∷ events) = some query_failed
poll_until_stale stale last_seen (ticked true now ∷ events) =
    let silence = now -ℤ last_seen in
    let rest = poll_until_stale stale last_seen events in
    if ltb_ℤ stale silence then some (no_reading (rounded second silence)) else rest
