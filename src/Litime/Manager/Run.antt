-- ===== src/Litime/Manager/Run.antt =====
-- internal/litime/manager.go: Run of the Manager. What happens to the queue while it runs is a
-- history, and what the world does to each supervisor is a list of rounds.
use litime_timescaledb_inser.Prelude.{
  Bool, true, false, ◌&&◌, List, [], ◌∷◌, Option, none, some, Result, ok, err, ◌>>=◌, if◌then◌else◌,
}
use litime_timescaledb_inser.Strings.{Text}
use litime_timescaledb_inser.Channel.{Panic}
use litime_timescaledb_inser.Litime.Battery.{Battery}
use litime_timescaledb_inser.Litime.Metrics.{Metrics}
use litime_timescaledb_inser.Litime.Queue.{close_readings}
use litime_timescaledb_inser.Litime.Queue.Stream as Stream
use litime_timescaledb_inser.Litime.Resolve.{Discovered, ResolveError}
use litime_timescaledb_inser.Litime.Supervise.{Round, Progress, returned, supervise_battery}
use litime_timescaledb_inser.Litime.Manager.{Manager, run_starts}
use litime_timescaledb_inser.Maps.{Map}
pub mod Returns
mod Tests

-- Run is still in wg.Wait, or has returned an error or nil.
pub data Ran : Type 0 where
  waiting : Ran
  gave : Option ResolveError → Ran

-- wg.Wait returns once every goroutine is done.
abbrev pub all_done : List Progress → Bool
all_done [] = true
all_done (returned ∷ ps) = all_done ps
all_done (_ ∷ ps) = false

module _ {Address Adapter Data : Type 0} (parse_address : Text → Option Address)
    (m : Manager Adapter Data) (metrics : Metrics) (world : Battery → List (Round Address)) where
  -- The goroutines of the loop.
  unfoldable pub supervise_all : List (Battery × Option Address) → List Progress
  unfolding supervise_battery
  supervise_all [] = []
  supervise_all ((b, address) ∷ rest) =
      (supervise_battery m.stale_timeout b parse_address m.batteries address metrics (world b)).1
      ∷ supervise_all rest

  -- The deferred closeReadings, and the result.
  unfoldable pub leave :
      Stream.History Data → Option ResolveError → Result Panic (Stream.History Data × Ran)
  unfolding close_readings
  leave h result = close_readings h.queue >>= λ q. ok (record h { queue = q }, gave result)

  unfoldable pub wait_all :
      Stream.History Data
      → Result ResolveError (List (Battery × Option Address))
      → Result Panic (Stream.History Data × Ran)
  unfolding leave supervise_all
  wait_all h (err e) = leave h (some e)
  wait_all h (ok started) =
      if all_done (supervise_all started) then leave h none else ok (h, waiting)

  -- Run, with what is offered to the queue and taken from it before it returns.
  unfoldable pub run :
      (List Text → Option (List (Discovered Address)))
      → (Map (List Text) → Map (List Text))
      → List (Stream.Op Data)
      → Result Panic (Stream.History Data × Ran)
  unfolding wait_all run_starts Stream.run
  run scan arrange os =
      Stream.run (record { queue = m.queue; accepted = []; taken = [] }) os >>= λ h.
      wait_all h (run_starts parse_address scan arrange m.batteries)
