-- ===== src/Litime/Supervise/Gauge.antt =====
-- The gauge litime.battery.connected follows the connection.
use litime_timescaledb_inser.Prelude.{
  ℕ, ◌≡◌, ◌≢◌, refl, sym, subst, true, false, ◌&&◌, List, [], ◌∷◌, ◌++◌, Option, none, some, arith,
  if◌then◌else◌, if_ind,
}
use litime_timescaledb_inser.Strings.{Text, text_eq}
use litime_timescaledb_inser.Strings.Laws.{text_eq_refl}
use litime_timescaledb_inser.Durations.{Duration}
use litime_timescaledb_inser.Telemetry.{Measurement}
use litime_timescaledb_inser.Litime.Battery.{Battery}
use litime_timescaledb_inser.Litime.Metrics.{
  Metrics, Instrument, connected, same, record_connected, record_reconnect,
}
use litime_timescaledb_inser.Litime.Poll.{Reason, poll_until_stale}
use litime_timescaledb_inser.Litime.Supervise.{
  Round, Supervisor, Progress, continues, returned, polling, wait, lose, attempt, locate, round,
  rounds, supervise_battery, go_on, then_rounds,
}

-- The value last recorded on the gauge for a battery, if any.
abbrev last_value : Text → List (Measurement Instrument) → Option ℕ
last_value id [] = none
last_value id (m ∷ ms) = elim (last_value id ms) [
  | some v ↦ some v
  | none ↦ if same m.instrument connected && text_eq m.label id then some m.value else none
]

abbrev pub gauge : Text → Metrics → Option ℕ
gauge id none = none
gauge id (some calls) = last_value id calls

last_value-append :
    (id : Text) (ms : List (Measurement Instrument)) (m : Measurement Instrument)
    → last_value id (ms ++ m ∷ []) ≡ (
        if same m.instrument connected && text_eq m.label id
        then some m.value
        else last_value id ms)
last_value-append id [] m = refl
last_value-append id (n ∷ ms) m = ground (arith, last_value-append id ms m)

-- Metrics are kept, and the gauge does not say that the battery is connected.
pub record IsDown (id : Text) (m : Metrics) : Type 0 where
  pub reported : m ≢ none
  pub down : gauge id m ≢ some 1

-- What the gauge says at the end of a pass: 1 while the battery is being polled, and not 1 when
-- the pass is over.
abbrev pub Follows : {Address : Type 0} → Text → Supervisor Address × Progress → Type 0
Follows id (s, polling) = gauge id s.metrics ≡ some 1
Follows id (s, continues) = IsDown id s.metrics
Follows id (s, returned) = IsDown id s.metrics

module _ (id : Text) where
  up-gauge : (m : Metrics) → m ≢ none → gauge id (record_connected m id true) ≡ some 1
  unfolding record_connected
  up-gauge none h = absurd (h refl)
  up-gauge (some calls) h = rw (last_value-append id calls _, text_eq_refl id)

  record_connected-IsDown : (m : Metrics) → m ≢ none → IsDown id (record_connected m id false)
  unfolding record_connected
  record_connected-IsDown none h = absurd (h refl)
  record_connected-IsDown (some calls) h = record {
    reported = λ e. cc;
    down = rw (last_value-append id calls _, text_eq_refl id) (λ e. ground arith);
  }

  reconnect-IsDown : (m : Metrics) → IsDown id m → IsDown id (record_reconnect m id)
  unfolding record_reconnect
  reconnect-IsDown none h = absurd (h.reported refl)
  reconnect-IsDown (some calls) h = record {
    reported = λ e. cc;
    down = rw (last_value-append id calls _) h.down;
  }

  up-reported : (m : Metrics) → m ≢ none → record_connected m id true ≢ none
  unfolding record_connected
  up-reported none h = absurd (h refl)
  up-reported (some calls) h = λ e. cc

module _ {Address : Type 0} (stale_timeout : Duration) (battery : Battery) where
  abbrev Ends : Supervisor Address × Progress → Type 0
  Ends p = Follows battery.id p

  wait-Follows :
      (s : Supervisor Address) (r : Round Address) → IsDown battery.id s.metrics → Ends (wait s r)
  unfolding wait
  wait-Follows s r d = if_ind Ends r.slept d d

  lose-Follows :
      (s : Supervisor Address) (r : Round Address)
      → s.metrics ≢ none
      → Ends (lose stale_timeout battery s r)
  unfolding lose
  lose-Follows s r h =
      let gone = record_connected-IsDown battery.id s.metrics h in
      if_ind Ends r.over_later gone (wait-Follows _ r (reconnect-IsDown battery.id _ gone))

  polled-Follows :
      (s : Supervisor Address) (r : Round Address) (outcome : Option Reason)
      → s.metrics ≢ none
      → gauge battery.id s.metrics ≡ some 1
      → Ends (elim outcome [ none ↦ (s, polling) | some reason ↦ lose stale_timeout battery s r ])
  polled-Follows s r none h up = up
  polled-Follows s r (some reason) h up = lose-Follows s r h

  attempt-Follows :
      (s : Supervisor Address) (r : Round Address)
      → s.metrics ≢ none
      → Ends (attempt stale_timeout battery s r)
  unfolding attempt
  attempt-Follows s r h =
      if_ind Ends r.connects
        (polled-Follows _ r (poll_until_stale stale_timeout r.started r.events)
          (up-reported battery.id s.metrics h) (up-gauge battery.id s.metrics h))
        (wait-Follows _ r (record_connected-IsDown battery.id s.metrics h))

  module _ (parse_address : Text → Option Address) (batteries : List Battery) where
    locate_metrics :
        (s : Supervisor Address) (r : Round Address)
        → (locate stale_timeout battery parse_address batteries s r).metrics ≡ s.metrics
    unfolding locate
    locate_metrics s r = ground arith

    go_on-Follows :
        (s : Supervisor Address) (a : Option Address) (r : Round Address)
        → IsDown battery.id s.metrics
        → Ends (go_on stale_timeout battery parse_address batteries s a r)
    go_on-Follows s none r d = wait-Follows s r d
    go_on-Follows s (some a) r d = attempt-Follows s r d.reported

    round-Follows :
        (s : Supervisor Address) (r : Round Address)
        → IsDown battery.id s.metrics
        → Ends (round stale_timeout battery parse_address batteries s r)
    unfolding round
    round-Follows s r d =
        if_ind Ends r.over d
          (go_on-Follows _ _ r (subst (IsDown battery.id) (sym (locate_metrics s r)) d))

    then-Follows :
        (more : Supervisor Address → Supervisor Address × Progress)
        (p : Supervisor Address × Progress)
        → ((t : Supervisor Address) → IsDown battery.id t.metrics → Ends (more t))
        → Ends p
        → Ends (then_rounds stale_timeout battery parse_address batteries more p)
    then-Follows more (t, continues) h e = h t e
    then-Follows more (t, returned) h e = e
    then-Follows more (t, polling) h e = e

    rounds-Follows :
        (rs : List (Round Address)) (s : Supervisor Address)
        → IsDown battery.id s.metrics
        → Ends (rounds stale_timeout battery parse_address batteries s rs)
    unfolding rounds
    rounds-Follows [] s d = d
    rounds-Follows (r ∷ rs) s d =
        then-Follows (λ t. rounds stale_timeout battery parse_address batteries t rs)
          (round stale_timeout battery parse_address batteries s r) (λ t e. rounds-Follows rs t e)
          (round-Follows s r d)

    -- With metrics that do not show the battery as connected at the start, the gauge shows 1 for
    -- it while it is being polled, and does not show 1 between the attempts or once superviseBattery
    -- has returned, whatever the world did.
    pub gauge-Follows :
        (address : Option Address) (metrics : Metrics) (rs : List (Round Address))
        → IsDown battery.id metrics
        → Follows battery.id
            (supervise_battery stale_timeout battery parse_address batteries address metrics rs)
    unfolding supervise_battery
    gauge-Follows address metrics rs d = rounds-Follows rs _ d
