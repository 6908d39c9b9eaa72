-- ===== src/Litime/Poll/Tests.antt =====
-- Runs of pollUntilStale, and its theorems at concrete events.
use litime_timescaledb_inser.Prelude.{
  ℕ, ℤ, ◌+◌, ◌*◌, ◌≤◌, ◌≡◌, ◌⊎◌, refl, true, false, List, [], ◌∷◌, none, some, pos, arith, All,
}
use litime_timescaledb_inser.Durations.{second, rounded}
use litime_timescaledb_inser.Litime.Poll.{
  PollEvent, seen, ticked, cancelled, query_failed, shutting_down, no_reading, poll_until_stale,
}
use litime_timescaledb_inser.Litime.Poll.Silence.{
  max, answered, IsSpaced, GivenUp, silence_detected, Expired, no_reading_truthful,
}

abbrev stale : ℕ
stale = 90 * second

-- A ticker that starts 3 s after lastSeen, with a query that takes 1 s: the clock is read 14 s,
-- 54 s and 95.4 s after lastSeen.
abbrev readings : List ℕ
readings = 14 * second ∷ 54 * second ∷ 95400000000 ∷ []

readings-IsSpaced : IsSpaced (42 * second) (3 * second) readings
readings-IsSpaced = (omega arith, (omega arith, (omega arith, tt)))

silence_detected_example :
    (All (λ k. k ≤ stale) readings
      × (poll_until_stale (pos stale) (pos 0) (answered (pos 0) readings) ≡ none))
    ⊎ GivenUp stale
        (max stale (3 * second) + 42 * second)
        readings
        (poll_until_stale (pos stale) (pos 0) (answered (pos 0) readings))
silence_detected_example =
    silence_detected (pos 0) (3 * second) (42 * second) stale readings readings-IsSpaced

-- The clock shows this time.
abbrev at : ℕ → ℤ
at seconds = pos (seconds * second)

abbrev goes_silent : List PollEvent
goes_silent = ticked true (at 10) ∷ seen (at 11) ∷ ticked true (at 60) ∷ ticked true (at 120) ∷ []

given_up : poll_until_stale (pos stale) (at 0) goes_silent ≡ some (no_reading (at 109))
unfolding poll_until_stale
given_up = refl

-- 90.4 s of silence are beyond the timeout of 90 s and are reported as 90 s; 90.5 s as 91 s.
rounds_down :
    poll_until_stale (pos stale) (at 0) (ticked true (pos 90400000000) ∷ [])
    ≡ some (no_reading (at 90))
unfolding poll_until_stale rounded
rounds_down = refl

rounds_up :
    poll_until_stale (pos stale) (at 0) (ticked true (pos 90500000000) ∷ [])
    ≡ some (no_reading (at 91))
unfolding poll_until_stale rounded
rounds_up = refl

refused_query : poll_until_stale (pos stale) (at 0) (ticked false (at 10) ∷ []) ≡ some query_failed
unfolding poll_until_stale
refused_query = refl

shut_down : poll_until_stale (pos stale) (at 0) (seen (at 5) ∷ cancelled ∷ []) ≡ some shutting_down
unfolding poll_until_stale
shut_down = refl

no_reading_truthful_example : Expired (pos stale) (at 0) goes_silent (at 109)
no_reading_truthful_example = no_reading_truthful (pos stale) (at 0) goes_silent (at 109) given_up
