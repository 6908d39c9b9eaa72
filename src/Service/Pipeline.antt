-- ===== src/Service/Pipeline.antt =====
-- The collector's queue between handle and the loop that writes the readings: histories of
-- advertisements handled, receives by the writer and the close at the end of Run, in any order.
use mathlib.Core.List.{append_assoc}
use litime_timescaledb_inser.Prelude.{
  ℕ, zero, suc, ℤ, ◌+◌, ◌≤◌, ◌≡◌, ◌≢◌, refl, sym, ap, subst, ◌∙◌, inl, inr, Bool, true, false, ◌&&◌,
  List, [], ◌∷◌, ◌++◌, Option, none, some, Result, ok, ◌>>=◌, if◌then◌else◌, arith, All, All-append,
}
use litime_timescaledb_inser.Strings.{Text, text_eq}
use litime_timescaledb_inser.Channel.{Channel, Panic, receive, close, receive-cases}
use litime_timescaledb_inser.Telemetry.{measure-reported, total, total-measure}
use litime_timescaledb_inser.Victron.Device.{Device}
use litime_timescaledb_inser.Victron.Metrics.{Metrics, Instrument, same, readings}
use litime_timescaledb_inser.Victron.Metrics as VictronMetrics
use litime_timescaledb_inser.Victron.Collector.{
  Library, Bytes, Reading, Discovered, State, LibReading, handle, close_readings,
}
use litime_timescaledb_inser.Victron.Collector.Sightings.{IsCoherent, Seen, handle_sees}
use litime_timescaledb_inser.Timescale.{Value, Statement}
use litime_timescaledb_inser.Service.{Payloads, insert_reading, drain}
use litime_timescaledb_inser.Service.Payload.{
  IsFilled, Filled, KeepsFilled, handle-Filled, of_device, tried, drain_counts_devices,
}

pub data Op (Address : Type 0) : Type 0 where
  handled : Device Bytes → ℤ → Discovered Address → Op Address
  received ended : Op Address

abbrev pub ends : {Address : Type 0} → List (Op Address) → ℕ
ends [] = 0
ends (ended ∷ os) = suc (ends os)
ends (handled d now found ∷ os) = ends os
ends (received ∷ os) = ends os

-- The collector's state, and the readings that the writer has received, oldest first.
pub record History (lib : Library) : Type 0 where
  pub state : State lib
  pub taken : List (LibReading lib)

same-readings : (i : Instrument) → i ≢ readings → same i readings ≡ false
unfolding text_eq
same-readings readings n = absurd (n refl)
same-readings VictronMetrics.missed n = refl
same-readings VictronMetrics.decrypt_failures n = refl
same-readings VictronMetrics.decode_failures n = refl
same-readings VictronMetrics.scan_failures n = refl
same-readings VictronMetrics.dropped n = refl
same-readings VictronMetrics.inserts n = refl
same-readings VictronMetrics.insert_errors n = refl
same-readings (VictronMetrics.unsupported t) n = refl

of_device-append :
    {S B : Type 0} (id : Text) (rs ss : List (Reading S B))
    → of_device id (rs ++ ss) ≡ of_device id rs + of_device id ss
of_device-append id [] ss = omega arith
of_device-append id (r ∷ rs) ss = omega (arith, of_device-append id rs ss)

of_device-grown :
    {S B : Type 0} (id device_id : Text) (taken items items' : List (Reading S B)) (r : Reading S B)
    → r.device_id ≡ device_id
    → items' ≡ items ++ r ∷ []
    → of_device id (taken ++ items')
      ≡ of_device id (taken ++ items) + (if text_eq device_id id then 1 else 0)
of_device-grown id device_id taken items items' r e grown = omega (
  arith,
  ap (λ l. of_device id (taken ++ l)) grown,
  of_device-append id taken (items ++ r ∷ []),
  of_device-append id items (r ∷ []),
  of_device-append id taken items,
  ap (λ i. if text_eq i id then suc zero else zero) e,
)

-- The value of the counter of readings.
abbrev pub counted : Text → Metrics → ℕ
counted id m = total same readings id m

module _ {lib : Library} where
  -- What the writer has got and what waits for it.
  abbrev pub readings_of : History lib → List (LibReading lib)
  readings_of h = h.taken ++ h.state.readings.items

  abbrev took : History lib → Option (LibReading lib × Channel (LibReading lib)) → History lib
  took h none = h
  took h (some (r, ch)) = record {
    state = record (h.state) { readings = ch };
    taken = h.taken ++ r ∷ [];
  }

  unfoldable pub step : {Address : Type 0} → History lib → Op Address → Result Panic (History lib)
  unfolding handle receive close_readings
  step h (handled device now found) =
      handle lib h.state device now found >>= λ r. ok (record h { state = r.0 })
  step h received = ok (took h (receive h.state.readings))
  step h ended = close_readings h.state >>= λ c. ok (record h { state = c })

  unfoldable pub run :
      {Address : Type 0} → History lib → List (Op Address) → Result Panic (History lib)
  unfolding step
  run h [] = ok h
  run h (o ∷ os) = step h o >>= λ h'. run h' os

  -- With the counter starting at `base`, the readings are as many as it has counted since.
  pub record IsSound (base : Text → ℕ) (h : History lib) : Type 0 where
    pub coherent : IsCoherent lib h.state
    pub reported : h.state.metrics ≢ none
    pub given : All (IsFilled lib) h.taken
    pub waiting : Filled lib h.state
    pub exact : (id : Text) → counted id h.state.metrics ≡ base id + of_device id (readings_of h)

  module _ (base : Text → ℕ) (h : History lib) (v : IsSound base h) where
    exact_after :
        (id device_id : Text) (r : Result Panic (State lib × Bool))
        (s : Seen lib device_id h.state r)
        → counted id s.after.metrics ≡ base id + of_device id (h.taken ++ s.after.readings.items)
    unfolding text_eq
    exact_after id device_id r s =
        let next =
          ap (counted id) s.counted
          ∙ total-measure same readings id h.state.metrics s.instrument 1 device_id v.reported in
        elim s.kept [
          | inl (i, (reading, e, grown)) ↦ omega (
            arith,
            next,
            v.exact id,
            of_device-grown id device_id h.taken h.state.readings.items s.after.readings.items
                reading e grown,
            ap (λ j. if same j readings && text_eq device_id id then suc zero else zero) i,
          )
          | inr (i, kept) ↦ omega (
            arith,
            next,
            v.exact id,
            ap (λ l. of_device id (h.taken ++ l)) kept,
            ap (λ b. if b && text_eq device_id id then suc zero else zero)
                (same-readings s.instrument i),
          )
        ]

    handled-IsSound :
        {Address : Type 0} (device : Device Bytes) (now : ℤ) (found : Discovered Address)
        → (t : State lib) × (seen : Bool) × (handle lib h.state device now found ≡ ok (t, seen))
          × IsSound base (record h { state = t })
          × (t.closed ≡ h.state.closed)
    handled-IsSound device now found = elim (handle_sees lib h.state device now found v.coherent) [
      | inl (p, s) ↦ (
        s.after,
        true,
        s.is_ok,
        record {
          coherent = s.coherent;
          reported =
              subst (λ m. m ≢ none) (sym s.counted)
                (measure-reported h.state.metrics s.instrument 1 device.id v.reported);
          given = v.given;
          waiting =
              subst (KeepsFilled lib) s.is_ok
                (handle-Filled lib h.state device now found v.waiting);
          exact = λ id. exact_after id device.id (handle lib h.state device now found) s;
        },
        s.still,
      )
      | inr (n, q) ↦ (h.state, false, q, v, refl)
    ]

    took-IsSound :
        (r : LibReading lib) (ch : Channel (LibReading lib))
        → h.state.readings.items ≡ r ∷ ch.items
        → ch.closed ≡ h.state.readings.closed
        → IsSound base (took h (some (r, ch)))
    took-IsSound r ch e k =
        let (filled, rest) = subst (All (IsFilled lib)) e v.waiting in
        record {
          coherent = ground (arith, v.coherent, k);
          reported = v.reported;
          given = All-append (IsFilled lib) h.taken (r ∷ []) v.given (filled, tt);
          waiting = rest;
          exact = λ id.
              v.exact id
              ∙ ap (λ l. base id + of_device id l)
                  (ap (λ l. h.taken ++ l) e ∙ sym (append_assoc h.taken (r ∷ []) ch.items));
        }

  ended-IsSound :
      (base : Text → ℕ) (h : History lib)
      → IsSound base h
      → h.state.closed ≡ false
      → (t : State lib) × (close_readings h.state ≡ ok t)
        × IsSound base (record h { state = t })
        × (t.closed ≡ true)
  unfolding close_readings close
  ended-IsSound base h v k =
      rw (v.coherent ∙ k, close)
        (
          _,
          refl,
          record {
            coherent = refl;
            reported = v.reported;
            given = v.given;
            waiting = v.waiting;
            exact = v.exact;
          },
          refl,
        )

  abbrev closes : History lib → ℕ
  closes h = if h.state.closed then 1 else 0

  run-IsSound :
      {Address : Type 0} (base : Text → ℕ) (os : List (Op Address)) (h : History lib)
      → IsSound base h
      → ends os + closes h ≤ 1
      → (h' : History lib) × (run h os ≡ ok h') × IsSound base h'
  unfolding run step close_readings close
  run-IsSound base [] h v k = (h, refl, v)
  run-IsSound base (handled device now found ∷ os) h v k =
      let (t, seen, e, v', c) = handled-IsSound base h v device now found in
      rw e (run-IsSound base os (record h { state = t }) v' (ground arith))
  run-IsSound base (received ∷ os) h v k =
      elim (receive-cases h.state.readings.capacity h.state.readings.items
        h.state.readings.closed) [
          | inl e ↦ rw e (run-IsSound base os h v k)
          | inr (r, ch, e, items, closed) ↦ rw e (
              run-IsSound base os (took h (some (r, ch))) (took-IsSound base h v r ch items closed)
                k)
        ]
  run-IsSound base (ended ∷ os) h v k =
      let (t, e, v', c) = ended-IsSound base h v (ground arith) in
      rw e (run-IsSound base os (record h { state = t }) v' (ground arith))

module _ {F D : Type 0} (exec : D → Statement → List (Value F) → D × Bool) (lib : Library)
    (payloads : Payloads F lib.SolarCharger lib.BatteryMonitor) where
  -- From a queue that is empty, any interleaving of advertisements handled, receives by the writer
  -- and at most one close (none if it is closed already) runs without a panic. When the writer has
  -- then inserted what it received and what still waits, it has tried as many inserts for each
  -- device as the counter of readings has grown by for it: no reading counted is lost or is written
  -- twice. Conditions: the closed flag agrees with the channel, and the metrics are not nil.
  pub pipeline_complete :
      {Address : Type 0} (c : State lib) (os : List (Op Address)) (db : D) (m : Metrics)
      → IsCoherent lib c
      → c.metrics ≢ none
      → m ≢ none
      → c.readings.items ≡ []
      → ends os + (if c.closed then 1 else 0) ≤ 1
      → (h : History lib) × (run (record { state = c; taken = [] }) os ≡ ok h)
        × ((id : Text)
            → tried id (drain (insert_reading exec payloads) (readings_of h) (db, m)).1
                + counted id c.metrics
              ≡ tried id m + counted id h.state.metrics)
  pipeline_complete c os db m coherent reported w e k =
      let start : IsSound (λ id. counted id c.metrics) (record { state = c; taken = [] }) = record {
        coherent = coherent;
        reported = reported;
        given = tt;
        waiting = subst (All (IsFilled lib)) (sym e) tt;
        exact = λ id. omega (arith, ap (of_device id) e);
      } in
      let (h, r, v) =
        run-IsSound (λ id. counted id c.metrics) os (record { state = c; taken = [] }) start k in
      (
        h,
        r,
        λ id. omega (
          arith,
          v.exact id,
          drain_counts_devices exec lib payloads (readings_of h) db m id w
              (All-append (IsFilled lib) h.taken h.state.readings.items v.given v.waiting),
        ),
      )
