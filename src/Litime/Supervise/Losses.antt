-- ===== src/Litime/Supervise/Losses.antt =====
-- What counts as a reconnect, and which connections are lost.
use litime_timescaledb_inser.Prelude.{
  ℕ, ◌+◌, ◌≡◌, ◌≢◌, refl, ap, ◌∙◌, Bool, true, false, List, [], ◌∷◌, Option, none, some, ℤ, All,
  arith, if◌then◌else◌,
}
use litime_timescaledb_inser.Prelude.Int.{◌-ℤ◌, ltb_ℤ}
use litime_timescaledb_inser.Strings.{Text}
use litime_timescaledb_inser.Strings.Laws.{text_eq_refl}
use litime_timescaledb_inser.Durations.{Duration, second, rounded}
use litime_timescaledb_inser.Telemetry.{Measurement, sum_of-append}
use litime_timescaledb_inser.Litime.Battery.{Battery}
use litime_timescaledb_inser.Litime.Metrics.{
  Metrics, Instrument, connected, reconnects, same, counted, record_connected, record_reconnect,
}
use litime_timescaledb_inser.Litime.Poll.{PollEvent, ticked, Reason, no_reading, poll_until_stale}
use litime_timescaledb_inser.Litime.Supervise.{
  Round, Supervisor, Progress, polling, wait, lose, attempt, locate, round, rounds,
}
use litime_timescaledb_inser.Litime.Supervise.Schedule.{
  Fails, Loses, failed_round, lost_resets, then_continues,
}

module _ (id : Text) where
  -- What the counter of reconnects shows for the battery.
  abbrev pub reconnects_of : Metrics → ℕ
  reconnects_of m = counted reconnects id m

  -- The connections that were ever reported: the sum of what was recorded on the gauge.
  abbrev pub connections_of : Metrics → ℕ
  connections_of m = counted connected id m

  connected-counts :
      (m : Metrics) (up : Bool)
      → m ≢ none
      → let n = record_connected m id up in
        (n ≢ none)
        × (reconnects_of n ≡ reconnects_of m)
        × (connections_of n ≡ connections_of m + (if up then 1 else 0))
  unfolding record_connected
  connected-counts none up h = absurd (h refl)
  connected-counts (some calls) up h =
      let call : Measurement Instrument = record {
        instrument = connected;
        value = if up then 1 else 0;
        label = id;
      } in
      (
        λ e. cc,
        rw (sum_of-append same reconnects id calls (call ∷ [])) (omega arith),
        rw (sum_of-append same connected id calls (call ∷ []), text_eq_refl id) (omega arith),
      )

  reconnect-counts :
      (m : Metrics)
      → m ≢ none
      → let n = record_reconnect m id in
        (n ≢ none) × (reconnects_of n ≡ reconnects_of m + 1) × (connections_of n ≡ connections_of m)
  unfolding record_reconnect
  reconnect-counts none h = absurd (h refl)
  reconnect-counts (some calls) h =
      let call : Measurement Instrument = record {
        instrument = reconnects;
        value = 1;
        label = id;
      } in
      (
        λ e. cc,
        rw (sum_of-append same reconnects id calls (call ∷ []), text_eq_refl id) (omega arith),
        rw (sum_of-append same connected id calls (call ∷ [])) (omega arith),
      )

module _ {Address : Type 0} (stale_timeout : Duration) (battery : Battery) where
  module _ (parse_address : Text → Option Address) (batteries : List Battery) where
    abbrev pass : Supervisor Address → Round Address → Supervisor Address × Progress
    pass = round stale_timeout battery parse_address batteries

    abbrev id : Text
    id = battery.id

    failed-metrics :
        (s : Supervisor Address) (a : Address) (r : Round Address)
        → s.address ≡ some a
        → Fails r
        → (pass s r).0.metrics ≡ record_connected s.metrics id false
    unfolding round locate attempt wait
    failed-metrics s a r h f = ground arith

    -- A round that connects and whose polling ends while the program runs on, waited out or not.
    record Dropped (r : Round Address) : Type 0 where
      running : r.over ≡ false
      reached : r.connects ≡ true
      why : Reason
      ended : poll_until_stale stale_timeout r.started r.events ≡ some why
      still_running : r.over_later ≡ false

    Dropped-metrics :
        (s : Supervisor Address) (a : Address) (r : Round Address)
        → s.address ≡ some a
        → Dropped r
        → ((pass s r).1 ≢ polling)
          × ((pass s r).0.metrics
              ≡ record_reconnect
                  (record_connected (record_connected s.metrics id true) id false)
                  id)
    unfolding round locate attempt lose wait
    Dropped-metrics s a r h l = ground arith

    -- The counters of two metrics differ by these numbers of reconnects and connections.
    abbrev Grew : Metrics → Metrics → ℕ → ℕ → Type 0
    Grew m n i j =
        (n ≢ none)
        × (reconnects_of id n ≡ reconnects_of id m + i)
        × (connections_of id n ≡ connections_of id m + j)

    Dropped-Grew :
        (s : Supervisor Address) (a : Address) (r : Round Address)
        → s.address ≡ some a
        → s.metrics ≢ none
        → Dropped r
        → Grew s.metrics (pass s r).0.metrics 1 1
    Dropped-Grew s a r h n l =
        let (n1, r1, c1) = connected-counts id s.metrics true n in
        let (n2, r2, c2) = connected-counts id (record_connected s.metrics id true) false n1 in
        let (n3, r3, c3) =
          reconnect-counts id (record_connected (record_connected s.metrics id true) id false) n2 in
        rw (Dropped-metrics s a r h l).1 (n3, omega (arith, r1, r2, r3), omega (arith, c1, c2, c3))

    failing-Grew :
        (rs : List (Round Address)) (s : Supervisor Address) (a : Address)
        → s.address ≡ some a
        → s.metrics ≢ none
        → All Fails rs
        → Grew s.metrics (rounds stale_timeout battery parse_address batteries s rs).0.metrics 0 0
    unfolding rounds
    failing-Grew [] s a h n f = (n, omega arith, omega arith)
    failing-Grew (r ∷ rs) s a h n f =
        let t = (pass s r).0 in
        let (p, known, _, _) =
          failed_round stale_timeout battery parse_address batteries s a r h f.0 in
        let (n1, r1, c1) = connected-counts id s.metrics false n in
        let here : Grew s.metrics t.metrics 0 0 =
          rw (failed-metrics s a r h f.0) (n1, omega (arith, r1), c1) in
        let (n2, r2, c2) = failing-Grew rs t a known here.0 f.1 in
        rw
          (then_continues stale_timeout battery parse_address batteries
            (λ u. rounds stale_timeout battery parse_address batteries u rs) (pass s r) p)
          (n2, omega (arith, r2, here.1), omega (arith, c2, here.2))

    -- A connection that is lost, followed by rounds that all fail to connect: the reconnect counter
    -- has grown by one, though the only connection made is the one that was lost. So the counter
    -- counts connections lost, and not connections established again.
    pub lost_not_reestablished :
        (s : Supervisor Address) (a : Address) (r : Round Address) (reason : Reason)
        (rs : List (Round Address))
        → s.address ≡ some a
        → s.metrics ≢ none
        → Loses stale_timeout r reason
        → All Fails rs
        → let t = (rounds stale_timeout battery parse_address batteries s (r ∷ rs)).0 in
          (reconnects_of id t.metrics ≡ reconnects_of id s.metrics + 1)
          × (connections_of id t.metrics ≡ connections_of id s.metrics + 1)
    unfolding rounds
    lost_not_reestablished s a r reason rs h n l f =
        let t = (pass s r).0 in
        let (p, known, _, _) =
          lost_resets stale_timeout battery parse_address batteries s a r reason h l in
        let here = Dropped-Grew s a r h n (record {
          running = l.running;
          reached = l.reached;
          why = reason;
          ended = l.ended;
          still_running = l.still_running;
        }) in
        let (_, r4, c4) = failing-Grew rs t a known here.0 f in
        rw
          (then_continues stale_timeout battery parse_address batteries
            (λ u. rounds stale_timeout battery parse_address batteries u rs) (pass s r) p)
          (omega (arith, r4, here.1), omega (arith, c4, here.2))

    -- lastSeen starts when connect is called, not when the connection stands. If more than the stale
    -- timeout passes from there to the first tick of the ticker, and no reading has come in yet, the
    -- battery is given up at that tick, whatever comes after its query: the connection is reported
    -- and at once lost, and a reconnect is counted.
    pub slow_connect_lost :
        (s : Supervisor Address) (a : Address) (r : Round Address) (now : ℤ) (rest : List PollEvent)
        → s.address ≡ some a
        → s.metrics ≢ none
        → r.over ≡ false
        → r.over_later ≡ false
        → r.connects ≡ true
        → r.events ≡ ticked true now ∷ rest
        → ltb_ℤ stale_timeout (now -ℤ r.started) ≡ true
        → let (t, p) = pass s r in
          (p ≢ polling)
          × (connections_of id t.metrics ≡ connections_of id s.metrics + 1)
          × (reconnects_of id t.metrics ≡ reconnects_of id s.metrics + 1)
    unfolding poll_until_stale
    slow_connect_lost s a r now rest h n o ol c e slow =
        let drop : Dropped r = record {
          running = o;
          reached = c;
          why = no_reading (rounded second (now -ℤ r.started));
          ended = ap (poll_until_stale stale_timeout r.started) e ∙ rw slow;
          still_running = ol;
        } in
        let (_, grown, made) = Dropped-Grew s a r h n drop in
        ((Dropped-metrics s a r h drop).0, made, grown)
