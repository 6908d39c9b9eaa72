-- ===== src/Litime/Supervise/Schedule.antt =====
-- The waits while a battery cannot be reached, and after a connection is lost.
use mathlib.Core.List.{append_assoc, append-nil}
use litime_timescaledb_inser.Prelude.{
  ℕ, zero, suc, ◌*◌, ◌^◌, min, pos, ◌≡◌, refl, ap, sym, ◌∙◌, true, false, List, [], ◌∷◌, ◌++◌,
  Option, some, All, arith, length,
}
use litime_timescaledb_inser.Strings.{Text}
use litime_timescaledb_inser.Durations.{Duration, second}
use litime_timescaledb_inser.Litime.Battery.{Battery}
use litime_timescaledb_inser.Litime.Metrics.{Metrics}
use litime_timescaledb_inser.Litime.Backoff.{next_backoff}
use litime_timescaledb_inser.Litime.Backoff.Bounds.{backoff_after, backoff_after_lem}
use litime_timescaledb_inser.Litime.Poll.{Reason, poll_until_stale}
use litime_timescaledb_inser.Litime.Supervise.{
  Round, Supervisor, Progress, continues, returned, polling, wait, lose, attempt, locate, round,
  rounds, supervise_battery, then_rounds,
}

-- The waits of n failures in a row, from the i-th on.
abbrev pub schedule : ℕ → ℕ → List Duration
schedule i zero = []
schedule i (suc n) = pos (min (5 * second * 2 ^ i) (300 * second)) ∷ schedule (suc i) n

module _ {Address : Type 0} where
  -- A round in which the battery cannot be reached: Connect fails.
  pub record Fails (r : Round Address) : Type 0 where
    pub running : r.over ≡ false
    pub unreachable : r.connects ≡ false
    pub waited : r.slept ≡ true

  -- A round in which the battery is connected and then lost while the program keeps running.
  pub record Loses (stale_timeout : Duration) (r : Round Address) (reason : Reason) : Type 0 where
    pub running : r.over ≡ false
    pub reached : r.connects ≡ true
    pub ended : poll_until_stale stale_timeout r.started r.events ≡ some reason
    pub still_running : r.over_later ≡ false
    pub waited : r.slept ≡ true

module _ {Address : Type 0} (stale_timeout : Duration) (battery : Battery) where
  module _ (parse_address : Text → Option Address) (batteries : List Battery) where
    pub failed_round :
        (s : Supervisor Address) (a : Address) (r : Round Address)
        → s.address ≡ some a
        → Fails r
        → let (t, p) = round stale_timeout battery parse_address batteries s r in
          (p ≡ continues)
          × (t.address ≡ some a)
          × (t.waits ≡ s.waits ++ s.backoff ∷ [])
          × (t.backoff ≡ next_backoff s.backoff)
    unfolding round locate attempt wait
    failed_round s a r h f = ground arith

    pub then_continues :
        (more : Supervisor Address → Supervisor Address × Progress)
        (p : Supervisor Address × Progress)
        → p.1 ≡ continues
        → then_rounds stale_timeout battery parse_address batteries more p ≡ more p.0
    then_continues more (t, continues) e = refl
    then_continues more (t, returned) e = cc
    then_continues more (t, polling) e = cc

    failing_from :
        (rs : List (Round Address)) (i : ℕ) (s : Supervisor Address) (a : Address)
        → s.address ≡ some a
        → s.backoff ≡ backoff_after i
        → All Fails rs
        → let (t, p) = rounds stale_timeout battery parse_address batteries s rs in
          (p ≡ continues) × (t.waits ≡ s.waits ++ schedule i (length rs))
    unfolding rounds
    failing_from [] i s a h e f = (refl, sym (append-nil s.waits))
    failing_from (r ∷ rs) i s a h e f =
        let t = (round stale_timeout battery parse_address batteries s r).0 in
        let (p, known, asked, doubled) = failed_round s a r h f.0 in
        let (q, later) = failing_from rs (suc i) t a known (doubled ∙ ap next_backoff e) f.1 in
        rw
          (then_continues (λ u. rounds stale_timeout battery parse_address batteries u rs)
            (round stale_timeout battery parse_address batteries s r) p)
          (
            q,
            later
                ∙ ap (λ w. w ++ schedule (suc i) (length rs)) asked
                ∙ append_assoc s.waits (s.backoff ∷ []) (schedule (suc i) (length rs))
                ∙ ap (λ d. s.waits ++ d ∷ schedule (suc i) (length rs)) (e ∙ backoff_after_lem i),
          )

    -- A battery whose address is known and that cannot be reached in n rounds in a row is tried
    -- again after 5 s, 10 s, 20 s and so on: the i-th wait, from 0, is 5 s doubled i times, or 5 min
    -- if that is less, and the loop goes on.
    pub failing_schedule :
        (rs : List (Round Address)) (a : Address) (metrics : Metrics)
        → All Fails rs
        → let (t, p) =
            supervise_battery stale_timeout battery parse_address batteries (some a) metrics rs in
          (p ≡ continues) × (t.waits ≡ schedule 0 (length rs))
    unfolding supervise_battery
    failing_schedule rs a metrics f = failing_from rs 0 _ a refl refl f

    -- However long the backoff had grown, a connection resets it: after the connection is lost the
    -- next attempt comes after 5 s, and a failure of that one is followed by a wait of 10 s. The
    -- address stays known.
    pub lost_resets :
        (s : Supervisor Address) (a : Address) (r : Round Address) (reason : Reason)
        → s.address ≡ some a
        → Loses stale_timeout r reason
        → let (t, p) = round stale_timeout battery parse_address batteries s r in
          (p ≡ continues)
          × (t.address ≡ some a)
          × (t.waits ≡ s.waits ++ backoff_after 0 ∷ [])
          × (t.backoff ≡ backoff_after 1)
    unfolding round locate attempt lose wait
    lost_resets s a r reason h l = ground arith
