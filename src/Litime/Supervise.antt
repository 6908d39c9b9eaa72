-- ===== src/Litime/Supervise.antt =====
-- internal/litime/manager.go: superviseBattery. A round is one pass of its loop, with all that the
-- outside world does in it; the metrics and the waits that are asked for are kept. The log lines
-- are left out.
use litime_timescaledb_inser.Prelude.{
  ℕ, ℤ, Bool, true, false, List, [], ◌∷◌, ◌++◌, Option, none, some, Result, ok, err, if◌then◌else◌,
}
use litime_timescaledb_inser.Strings.{Text}
use litime_timescaledb_inser.Maps.{Map, lookup}
use litime_timescaledb_inser.Durations.{Duration}
use litime_timescaledb_inser.Litime.Battery.{Battery}
use litime_timescaledb_inser.Litime.Metrics.{Metrics, record_connected, record_reconnect}
use litime_timescaledb_inser.Litime.Backoff.{min_reconnect_backoff, next_backoff}
use litime_timescaledb_inser.Litime.Poll.{PollEvent, Reason, poll_until_stale}
use litime_timescaledb_inser.Litime.Resolve.{Discovered, ResolveError, resolve_addresses}
pub mod Waits
pub mod Schedule
pub mod Gauge
pub mod Losses
pub mod Shutdown
mod Tests

-- What the world answers during one pass of the loop, as far as the pass asks.
pub record Round (Address : Type 0) : Type 0 where
  -- ctx.Err() != nil, at the loop's test.
  pub over : Bool
  -- The outcome of a scan, and the order of `range byName`.
  pub scan : List Text → Option (List (Discovered Address))
  pub arrange : Map (List Text) → Map (List Text)
  -- When connect is called, and whether Connect succeeds.
  pub started : ℤ
  pub connects : Bool
  -- What happens while the battery is polled.
  pub events : List PollEvent
  -- ctx.Err() != nil, after Disconnect.
  pub over_later : Bool
  -- What sleep returns.
  pub slept : Bool

-- The variables of the loop, the metrics, and the durations that sleep was called with.
pub record Supervisor (Address : Type 0) : Type 0 where
  pub backoff : Duration
  pub address : Option Address
  pub metrics : Metrics
  pub waits : List Duration

-- How a pass ends: with the next one, with the function's return, or not yet, inside
-- pollUntilStale.
pub data Progress : Type 0 where
  continues returned polling : Progress

module _ {Address : Type 0} where
  -- `if !sleep(ctx, backoff) { return }; backoff = nextBackoff(backoff); continue`
  unfoldable pub wait : Supervisor Address → Round Address → Supervisor Address × Progress
  wait s r =
      let asked = record s { waits = s.waits ++ s.backoff ∷ [] } in
      if r.slept
      then (record asked { backoff = next_backoff s.backoff }, continues)
      else (asked, returned)

  module _ (stale_timeout : Duration) (battery : Battery) where
    -- Behind pollUntilStale.
    unfoldable pub lose : Supervisor Address → Round Address → Supervisor Address × Progress
    unfolding wait record_connected record_reconnect
    lose s r =
        let gone = record s { metrics = record_connected s.metrics battery.id false } in
        if r.over_later
        then (gone, returned)
        else wait (record gone { metrics = record_reconnect gone.metrics battery.id }) r

    -- From connect on.
    unfoldable pub attempt : Supervisor Address → Round Address → Supervisor Address × Progress
    unfolding lose
    attempt s r =
        if r.connects
        then (let here = record s {
          metrics = record_connected s.metrics battery.id true;
          backoff = min_reconnect_backoff;
        } in
            elim (poll_until_stale stale_timeout r.started r.events) [
              | none ↦ (here, polling)
              | some reason ↦ lose here r
            ])
        else wait (record s { metrics = record_connected s.metrics battery.id false }) r

    -- The battery's address in the outcome of a scan; the old one stays where there is none.
    abbrev found_in : Result ResolveError (Map Address) → Text → Option Address
    found_in (ok found) id = lookup id found
    found_in (err e) id = none

    module _ (parse_address : Text → Option Address) (batteries : List Battery) where
      unfoldable pub locate : Supervisor Address → Round Address → Supervisor Address
      locate s r = elim s.address [
        | some a ↦ s
        | none ↦ record s {
          address =
              found_in (resolve_addresses parse_address r.scan r.arrange batteries) battery.id;
        }
      ]

      abbrev go_on :
          Supervisor Address → Option Address → Round Address → Supervisor Address × Progress
      go_on s none r = wait s r
      go_on s (some a) r = attempt s r

      unfoldable pub round : Supervisor Address → Round Address → Supervisor Address × Progress
      unfolding locate attempt
      round s r =
          let located = locate s r in
          if r.over then (s, returned) else go_on located located.address r

      abbrev then_rounds :
          (Supervisor Address → Supervisor Address × Progress)
          → Supervisor Address × Progress
          → Supervisor Address × Progress
      then_rounds more (s, continues) = more s
      then_rounds more (s, p) = (s, p)

      -- The loop, over the rounds that the world plays.
      unfoldable pub rounds :
          Supervisor Address → List (Round Address) → Supervisor Address × Progress
      unfolding round
      rounds s [] = (s, continues)
      rounds s (r ∷ rs) = then_rounds (λ t. rounds t rs) (round s r)

      -- superviseBattery, with the address that Run found, if any.
      unfoldable pub supervise_battery :
          Option Address → Metrics → List (Round Address) → Supervisor Address × Progress
      unfolding rounds
      supervise_battery address metrics rs =
          rounds
            (record {
              backoff = min_reconnect_backoff;
              address = address;
              metrics = metrics;
              waits = [];
            })
            rs
