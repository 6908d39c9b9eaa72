-- ===== src/Litime/Supervise/Tests.antt =====
-- Runs of superviseBattery, and its theorems at concrete rounds. Addresses are numbers, and no text
-- parses as one.
use litime_timescaledb_inser.Prelude.{
  inl, inr, ℕ, ◌+◌, ◌*◌, ◌≡◌, ◌≢◌, refl, true, false, [], ◌∷◌, ◌++◌, Option, none, some, pos,
}
use litime_timescaledb_inser.Prelude.Int.{◌-ℤ◌}
use litime_timescaledb_inser.Strings.{Text, codes}
use litime_timescaledb_inser.Durations.{Duration, second}
use litime_timescaledb_inser.Litime.Battery.{Battery, match_name}
use litime_timescaledb_inser.Litime.Backoff.Bounds.{backoff_after}
use litime_timescaledb_inser.Litime.Poll.{cancelled, seen, ticked, query_failed, poll_until_stale}
use litime_timescaledb_inser.Litime.Supervise.{
  returned, Round, Supervisor, continues, polling, round, rounds, supervise_battery,
}
use litime_timescaledb_inser.Litime.Supervise.Shutdown.{Ends, supervise_battery_returns}
use litime_timescaledb_inser.Litime.Supervise.Schedule.{
  Fails, Loses, schedule, failing_schedule, lost_resets,
}
use litime_timescaledb_inser.Litime.Supervise.Gauge.{IsDown, Follows, gauge-Follows}
use litime_timescaledb_inser.Litime.Supervise.Losses.{
  reconnects_of, connections_of, lost_not_reestablished, slow_connect_lost,
}

abbrev no_address : Text → Option ℕ
no_address s = none

abbrev attic : Battery
attic = record { id = codes "attic"; match = match_name; value = codes "battery-one" }

abbrev stale : Duration
stale = pos (90 * second)

abbrev unreachable : Round ℕ
unreachable = record {
  over = false;
  scan = λ names. none;
  arrange = λ by_name. by_name;
  started = pos 0;
  connects = false;
  events = [];
  over_later = false;
  slept = true;
}

-- Connected, and lost when a query fails.
abbrev loses : Round ℕ
loses = record unreachable { connects = true; events = ticked false (pos 10) ∷ [] }

-- Connected so slowly that the first tick comes two minutes after the start.
abbrev slow : Round ℕ
slow = record unreachable {
  connects = true;
  events = ticked true (pos (120 * second)) ∷ seen (pos (121 * second)) ∷ [];
}

abbrev known : Supervisor ℕ
known = record { backoff = pos (160 * second); address = some 4; metrics = some []; waits = [] }

unreachable-Fails : Fails unreachable
unreachable-Fails = record { running = refl; unreachable = refl; waited = refl }

loses-Loses : Loses stale loses query_failed
unfolding poll_until_stale
loses-Loses = record {
  running = refl;
  reached = refl;
  ended = refl;
  still_running = refl;
  waited = refl;
}

failing_schedule_example :
    let (t, p) =
      supervise_battery stale attic no_address
        (attic ∷ [])
        (some 4)
        (some [])
        (unreachable ∷ unreachable ∷ []) in
    (p ≡ continues) × (t.waits ≡ schedule 0 2)
failing_schedule_example =
    failing_schedule stale attic no_address (attic ∷ []) (unreachable ∷ unreachable ∷ []) 4
      (some []) (unreachable-Fails, (unreachable-Fails, tt))

lost_resets_example :
    let (t, p) = round stale attic no_address (attic ∷ []) known loses in
    (p ≡ continues)
    × (t.address ≡ some 4)
    × (t.waits ≡ [] ++ backoff_after 0 ∷ [])
    × (t.backoff ≡ backoff_after 1)
lost_resets_example =
    lost_resets stale attic no_address (attic ∷ []) known 4 loses query_failed refl loses-Loses

starts-IsDown : IsDown attic.id (some [])
starts-IsDown = record { reported = λ h. cc; down = λ h. cc }

gauge-Follows_example : Follows attic.id (
    supervise_battery stale attic no_address
      (attic ∷ [])
      (some 4)
      (some [])
      (unreachable ∷ loses ∷ []))
gauge-Follows_example =
    gauge-Follows stale attic no_address (attic ∷ []) (some 4) (some []) (unreachable ∷ loses ∷ [])
      starts-IsDown

lost_not_reestablished_example :
    let t = (rounds stale attic no_address (attic ∷ []) known (loses ∷ unreachable ∷ [])).0 in
    (reconnects_of attic.id t.metrics ≡ reconnects_of attic.id known.metrics + 1)
    × (connections_of attic.id t.metrics ≡ connections_of attic.id known.metrics + 1)
lost_not_reestablished_example =
    lost_not_reestablished stale attic no_address (attic ∷ []) known 4 loses query_failed
      (unreachable ∷ []) refl (λ h. cc) loses-Loses (unreachable-Fails, tt)

slow_connect_lost_example :
    let (t, p) = round stale attic no_address (attic ∷ []) known slow in
    (p ≢ polling)
    × (connections_of attic.id t.metrics ≡ connections_of attic.id known.metrics + 1)
    × (reconnects_of attic.id t.metrics ≡ reconnects_of attic.id known.metrics + 1)
unfolding ◌-ℤ◌
slow_connect_lost_example =
    slow_connect_lost stale attic no_address (attic ∷ []) known 4 slow (pos (120 * second))
      (seen (pos (121 * second)) ∷ []) refl (λ h. cc) refl refl refl refl refl

-- The context is cancelled while the battery is polled.
abbrev stopped : Round ℕ
stopped = record unreachable {
  connects = true;
  events = ticked true (pos 10) ∷ cancelled ∷ [];
  over_later = true;
  slept = false;
}

loses-Ends : Ends stale attic no_address (attic ∷ []) loses
unfolding poll_until_stale
loses-Ends = inr (λ h. cc)

supervise_battery_returns_example :
    let supervise = supervise_battery stale attic no_address (attic ∷ []) (some 4) (some []) in
    ((supervise (unreachable ∷ loses ∷ stopped ∷ unreachable ∷ [])).1 ≡ returned)
    × (supervise (unreachable ∷ loses ∷ stopped ∷ unreachable ∷ [])
        ≡ supervise (unreachable ∷ loses ∷ stopped ∷ []))
supervise_battery_returns_example =
    supervise_battery_returns stale attic no_address (attic ∷ []) (some 4) (some [])
      (unreachable ∷ loses ∷ []) (unreachable ∷ []) stopped (inl refl, (loses-Ends, tt))
      (inr (refl, refl, refl))
