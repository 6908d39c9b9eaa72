-- ===== src/Victron/Collector/Run.antt =====
-- internal/victron/collector.go: Run. What happens to it is a list of events: the ticker fires, and
-- the scan then goes as the event says, or the context is cancelled.
use litime_timescaledb_inser.Prelude.{
  ℕ, ℤ, Bool, true, false, List, [], ◌∷◌, Option, Result, ok, ◌>>=◌,
}
use litime_timescaledb_inser.Strings.{Text}
use litime_timescaledb_inser.Maps.{Map}
use litime_timescaledb_inser.Channel.{Panic}
use litime_timescaledb_inser.Victron.Device.{Device}
use litime_timescaledb_inser.Victron.Collector.{Library, Bytes, Discovered, State, close_readings}
use litime_timescaledb_inser.Victron.Collector.Scan.{scan_once}
pub mod Returns
mod Tests

-- One scan, as the world lets it go: its outcome, whether the context is cancelled behind it, and
-- the time at which each device found is handled.
pub record ScanRound (Address : Type 0) : Type 0 where
  pub scan : List Address → Option (List (Discovered Address))
  pub is_over : Bool
  pub clock : ℕ → ℤ

pub data RunEvent (Address : Type 0) : Type 0 where
  fired : ScanRound Address → RunEvent Address
  stopped : RunEvent Address

module _ {Address : Type 0} (lib : Library) (above : ℕ → ℕ) (parse_address : Text → Option Address)
    (address_string : Address → Text) (devices : List (Device Bytes))
    (by_address : Map (Device Bytes)) where
  unfoldable pub scan_round : ScanRound Address → State lib → Result Panic (State lib)
  unfolding scan_once
  scan_round r c =
      scan_once lib above parse_address address_string devices by_address r.clock r.scan r.is_over c

  -- The loop, with the deferred closeReadings; `true` once it has returned.
  unfoldable pub scan_loop : List (RunEvent Address) → State lib → Result Panic (State lib × Bool)
  unfolding scan_round close_readings
  scan_loop [] c = ok (c, false)
  scan_loop (stopped ∷ events) c = close_readings c >>= λ t. ok (t, true)
  scan_loop (fired r ∷ events) c = scan_round r c >>= λ t. scan_loop events t

  -- Run: one scan at once, and then the loop.
  unfoldable pub run :
      ScanRound Address → List (RunEvent Address) → State lib → Result Panic (State lib × Bool)
  unfolding scan_loop
  run first events c = scan_round first c >>= λ t. scan_loop events t
