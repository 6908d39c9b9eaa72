-- ===== src/Litime/Supervise/Shutdown.antt =====
-- When superviseBattery returns.
use litime_timescaledb_inser.Prelude.{
  ℤ, ◌≡◌, ◌≢◌, refl, ◌⊎◌, inl, inr, Bool, true, false, List, [], ◌∷◌, ◌++◌, Option, none, All,
  arith,
}
use litime_timescaledb_inser.Durations.{Duration}
use litime_timescaledb_inser.Strings.{Text}
use litime_timescaledb_inser.Litime.Battery.{Battery}
use litime_timescaledb_inser.Litime.Poll.{PollEvent, seen, ticked, cancelled, poll_until_stale}
use litime_timescaledb_inser.Litime.Metrics.{Metrics}
use litime_timescaledb_inser.Litime.Supervise.{
  Round, Supervisor, Progress, continues, returned, polling, wait, lose, attempt, locate, round,
  rounds, supervise_battery, then_rounds,
}

-- The cancellation of the context is among the events.
abbrev pub is_cancelled : List PollEvent → Bool
is_cancelled [] = false
is_cancelled (cancelled ∷ events) = true
is_cancelled (seen t ∷ events) = is_cancelled events
is_cancelled (ticked answered now ∷ events) = is_cancelled events

-- A poll that is cancelled comes to an end.
cancelled-ends :
    (stale : Duration) (last : ℤ) (events : List PollEvent)
    → is_cancelled events ≡ true
    → poll_until_stale stale last events ≢ none
unfolding poll_until_stale
cancelled-ends stale last [] c h = cc
cancelled-ends stale last (cancelled ∷ events) c h = cc
cancelled-ends stale last (seen t ∷ events) c h = cancelled-ends stale t events c h
cancelled-ends stale last (ticked false now ∷ events) c h = cc
cancelled-ends stale last (ticked true now ∷ events) c h =
    ground (arith, cancelled-ends stale last events c)

module _ {Address : Type 0} where
  -- The context is cancelled before the round's test, or later in the round: then the poll, the
  -- test behind it and the wait, as far as the round comes to them, see it.
  abbrev pub Stops : Round Address → Type 0
  Stops r =
      (r.over ≡ true) ⊎ ((is_cancelled r.events ≡ true) × (r.over_later ≡ true) × (r.slept ≡ false))

module _ {Address : Type 0} (stale_timeout : Duration) (battery : Battery)
    (parse_address : Text → Option Address) (batteries : List Battery) where
  -- There is no connection in the round, or its poll comes to an end.
  abbrev pub Ends : Round Address → Type 0
  Ends r = (r.connects ≡ false) ⊎ (poll_until_stale stale_timeout r.started r.events ≢ none)

  abbrev outcome : Supervisor Address → Round Address → Supervisor Address × Progress
  outcome = round stale_timeout battery parse_address batteries

  round-ends : (s : Supervisor Address) (r : Round Address) → Ends r → (outcome s r).1 ≢ polling
  unfolding round attempt lose wait locate
  round-ends s r (inl e) h = ground arith
  round-ends s r (inr e) h = ground arith

  stops-returns :
      (s : Supervisor Address) (r : Round Address) → Stops r → (outcome s r).1 ≡ returned
  unfolding round attempt lose wait locate
  stops-returns s r (inl o) = ground arith
  stops-returns s r (inr (c, o, n)) =
      ground (arith, cancelled-ends stale_timeout r.started r.events c)

  abbrev more :
      (Supervisor Address → Supervisor Address × Progress)
      → Supervisor Address × Progress
      → Supervisor Address × Progress
  more = then_rounds stale_timeout battery parse_address batteries

  more-returned :
      (f g : Supervisor Address → Supervisor Address × Progress) (p : Supervisor Address × Progress)
      → p.1 ≡ returned
      → ((more f p).1 ≡ returned) × (more f p ≡ more g p)
  more-returned f g (t, continues) e = cc
  more-returned f g (t, returned) e = (refl, refl)
  more-returned f g (t, polling) e = cc

  more-ended :
      (f g : Supervisor Address → Supervisor Address × Progress) (p : Supervisor Address × Progress)
      → p.1 ≢ polling
      → ((u : Supervisor Address) → ((f u).1 ≡ returned) × (f u ≡ g u))
      → ((more f p).1 ≡ returned) × (more f p ≡ more g p)
  more-ended f g (t, continues) e h = h t
  more-ended f g (t, returned) e h = (refl, refl)
  more-ended f g (t, polling) e h = absurd (e refl)

  abbrev all_rounds : Supervisor Address → List (Round Address) → Supervisor Address × Progress
  all_rounds = rounds stale_timeout battery parse_address batteries

  rounds-returns :
      (before after : List (Round Address)) (r : Round Address) (s : Supervisor Address)
      → All Ends before
      → Stops r
      → ((all_rounds s (before ++ r ∷ after)).1 ≡ returned)
        × (all_rounds s (before ++ r ∷ after) ≡ all_rounds s (before ++ r ∷ []))
  unfolding rounds
  rounds-returns [] after r s e stop =
      more-returned (λ t. all_rounds t after) (λ t. all_rounds t []) (outcome s r)
        (stops-returns s r stop)
  rounds-returns (b ∷ before) after r s e stop =
      more-ended (λ t. all_rounds t (before ++ r ∷ after)) (λ t. all_rounds t (before ++ r ∷ []))
        (outcome s b) (round-ends s b e.0) (λ t. rounds-returns before after r t e.1 stop)

  -- In whatever state the battery is when the context is cancelled, superviseBattery returns in the
  -- same round of its loop, and nothing of what the world would do after it is looked at, if the
  -- polls of the rounds before came to an end.
  pub supervise_battery_returns :
      (address : Option Address) (metrics : Metrics) (before after : List (Round Address))
      (r : Round Address)
      → All Ends before
      → Stops r
      → let supervise =
          supervise_battery stale_timeout battery parse_address batteries address metrics in
        ((supervise (before ++ r ∷ after)).1 ≡ returned)
        × (supervise (before ++ r ∷ after) ≡ supervise (before ++ r ∷ []))
  unfolding supervise_battery
  supervise_battery_returns address metrics before after r e stop =
      rounds-returns before after r _ e stop
