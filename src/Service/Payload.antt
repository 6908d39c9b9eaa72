-- ===== src/Service/Payload.antt =====
-- Every reading that the collector publishes carries the payload of its record type, so that the
-- loop that writes the readings inserts each of them.
use litime_timescaledb_inser.Prelude.{
  ℕ, ℤ, ◌+◌, ◌≡◌, ◌≢◌, refl, Bool, true, false, List, [], ◌∷◌, Option, none, some, Result, ok, err,
  ◌>>=◌, if◌then◌else◌, arith, All, All-append, ◌⊎◌, inl, inr, ◌∙◌, Option-cases, Bool-cases, subst,
  ◌==◌, ◌||◌, if_ind, ltb, length,
}
use litime_timescaledb_inser.Strings.{Text, text_eq}
use litime_timescaledb_inser.Channel.{Panic, try_send}
use litime_timescaledb_inser.Telemetry.{measure-reported, total, total-measure}
use litime_timescaledb_inser.Victron.Device.{Device}
use litime_timescaledb_inser.Victron.Metrics as VictronMetrics
use litime_timescaledb_inser.Victron.Collector.{
  Library, Bytes, Reading, Discovered, State, LibReading, bare_reading, fill_payload, handle_filled,
  handle_record, handle, publish, count_publish, offered,
}
use litime_timescaledb_inser.Victron.Collector.Sightings.{IsCoherent, handle_sees}
use litime_timescaledb_inser.Timescale.{
  Value, Statement, insert_victron, insert_victron_battery_monitor,
}
use litime_timescaledb_inser.Service.{
  Payloads, insert_reading, insert_solar_charger, insert_battery_monitor, charger_measure,
  monitor_measure, drain,
}

module _ (lib : Library) where
  -- The reading has exactly the payload that its record type says.
  abbrev pub IsFilled : LibReading lib → Type 0
  IsFilled r =
      ((r.record_type ≡ lib.record_solar_charger)
        × (r.solar_charger ≢ none)
        × (r.battery_monitor ≡ none))
      ⊎ ((r.record_type ≡ lib.record_battery_monitor)
          × (r.solar_charger ≡ none)
          × (r.battery_monitor ≢ none))

  abbrev pub Filled : State lib → Type 0
  Filled c = All IsFilled c.readings.items

  -- What handle gives, if it gives anything, has only such readings in the queue.
  abbrev pub KeepsFilled : Result Panic (State lib × Bool) → Type 0
  KeepsFilled (ok (c, seen)) = Filled c
  KeepsFilled (err p) = Unit

  abbrev FilledIf : Option (LibReading lib) → Type 0
  FilledIf none = Unit
  FilledIf (some r) = IsFilled r

  module _ (id : Text) (now : ℤ) (r : lib.Record) (payload : Bytes) where
    fill_payload-IsFilled :
        (lib.record_type r == lib.record_solar_charger
            || lib.record_type r == lib.record_battery_monitor)
          ≡ true
        → FilledIf (fill_payload lib r payload (bare_reading lib id now r))
    unfolding fill_payload bare_reading
    fill_payload-IsFilled s = elim (Bool-cases (lib.record_type r == lib.record_solar_charger)) [
      | inl e ↦
          rw (e, fill_payload)
            (elim (Option-cases (lib.parse_solar_charger payload)) [
              | inl n ↦ rw (n, fill_payload) tt
              | inr (v, p) ↦ rw (p, fill_payload) (inl (ground arith, (λ q. cc), refl))
            ])
      | inr e ↦ elim (Bool-cases (lib.record_type r == lib.record_battery_monitor)) [
        | inl f ↦
            rw (e, fill_payload)
              (rw (f, fill_payload)
                (elim (Option-cases (lib.parse_battery_monitor payload)) [
                  | inl n ↦ rw (n, fill_payload) tt
                  | inr (v, p) ↦ rw (p, fill_payload) (inr (ground arith, refl, (λ q. cc)))
                ]))
        | inr f ↦ ground (arith, s, e, f)
      ]
    ]

  handle_filled-Keeps :
      (c : State lib) (id : Text) (o : Option (LibReading lib))
      → Filled c
      → FilledIf o
      → KeepsFilled (handle_filled lib id c o)
  unfolding handle_filled publish try_send
  handle_filled-Keeps c id none h k = h
  handle_filled-Keeps c id (some reading) h k =
      if_ind (λ m. KeepsFilled (m >>= λ x. ok (count_publish lib id x))) c.closed h
        (if_ind
          (λ m. KeepsFilled (m >>= (λ o. ok (offered c o)) >>= λ x. ok (count_publish lib id x)))
          c.readings.closed tt
          (if_ind
            (λ m. KeepsFilled (m >>= (λ o. ok (offered c o)) >>= λ x. ok (count_publish lib id x)))
            (ltb (length c.readings.items) c.readings.capacity)
            (All-append IsFilled c.readings.items (reading ∷ []) h (k, tt)) h))

  record-Keeps :
      (c : State lib) (id : Text) (key : Bytes) (now : ℤ) (r : lib.Record)
      → Filled c
      → KeepsFilled (handle_record lib id c key now r)
  unfolding handle_record
  record-Keeps c id key now r h =
      elim (Bool-cases (
        lib.record_type r == lib.record_solar_charger
        || lib.record_type r == lib.record_battery_monitor)) [
          | inl e ↦ elim (Option-cases (lib.decrypt r key)) [
            | inl n ↦ rw (e, handle_record) (rw (n, handle_record) h)
            | inr (p, d) ↦
                rw (e, handle_record)
                  (rw (d, handle_record)
                    (handle_filled-Keeps c id (fill_payload lib r p (bare_reading lib id now r)) h
                      (fill_payload-IsFilled id now r p e)))
          ]
          | inr e ↦ rw (e, handle_record) h
        ]

  pub handle-Filled :
      {Address : Type 0} (c : State lib) (device : Device Bytes) (now : ℤ)
      (found : Discovered Address)
      → Filled c
      → KeepsFilled (handle lib c device now found)
  unfolding handle
  handle-Filled c device now found h =
      elim (Option-cases (found.manufacturer_data lib.company_id)) [
        | inl e ↦ rw (e, handle) h
        | inr (b, e) ↦ elim (Option-cases (lib.parse_record b)) [
          | inl f ↦ rw (e, handle) (rw (f, handle) h)
          | inr (r, f) ↦
              rw (e, handle) (rw (f, handle) (record-Keeps c device.id device.key now r h))
        ]
      ]

module _ (lib : Library) where
  -- If the closed flag agrees with the channel and every reading in the queue has exactly the payload
  -- that its record type says, handle does not panic, and both hold behind it, whatever the
  -- advertisement is.
  pub handle-Keeps :
      {Address : Type 0} (c : State lib) (device : Device Bytes) (now : ℤ)
      (found : Discovered Address)
      → IsCoherent lib c
      → Filled lib c
      → (t : State lib) × (seen : Bool) × (handle lib c device now found ≡ ok (t, seen))
        × IsCoherent lib t
        × Filled lib t
  handle-Keeps c device now found h f = elim (handle_sees lib c device now found h) [
    | inl (p, s) ↦ (
      s.after,
      true,
      s.is_ok,
      s.coherent,
      subst (KeepsFilled lib) s.is_ok (handle-Filled lib c device now found f),
    )
    | inr (n, q) ↦ (c, false, q, h, f)
  ]

-- How many of the readings are of a device.
abbrev pub of_device : {S B : Type 0} → Text → List (Reading S B) → ℕ
of_device id [] = 0
of_device id (r ∷ rs) = (if text_eq r.device_id id then 1 else 0) + of_device id rs

-- The inserts tried for a device.
abbrev pub tried : Text → VictronMetrics.Metrics → ℕ
tried id m =
    total VictronMetrics.same VictronMetrics.inserts id m
    + total VictronMetrics.same VictronMetrics.insert_errors id m

record_insert-tried :
    (m : VictronMetrics.Metrics) (j id : Text) (failed : Bool)
    → m ≢ none
    → (VictronMetrics.record_insert m j failed ≢ none)
      × (tried id (VictronMetrics.record_insert m j failed)
          ≡ tried id m + (if text_eq j id then 1 else 0))
unfolding VictronMetrics.record_insert text_eq
record_insert-tried m j id true h = (
  measure-reported m VictronMetrics.insert_errors 1 j h,
  omega (
    arith,
    total-measure VictronMetrics.same VictronMetrics.inserts id m VictronMetrics.insert_errors 1 j
        h,
    total-measure VictronMetrics.same VictronMetrics.insert_errors id m VictronMetrics.insert_errors
        1 j h,
  ),
)
record_insert-tried m j id false h = (
  measure-reported m VictronMetrics.inserts 1 j h,
  omega (
    arith,
    total-measure VictronMetrics.same VictronMetrics.inserts id m VictronMetrics.inserts 1 j h,
    total-measure VictronMetrics.same VictronMetrics.insert_errors id m VictronMetrics.inserts 1 j
        h,
  ),
)

module _ {F D : Type 0} (exec : D → Statement → List (Value F) → D × Bool) (lib : Library)
    (payloads : Payloads F lib.SolarCharger lib.BatteryMonitor) where
  -- One insert is tried.
  pub record Tried (id : Text) (m : VictronMetrics.Metrics) (more : ℕ)
      (t : D × VictronMetrics.Metrics) : Type 0 where
    pub reported : t.1 ≢ none
    pub counted_once : tried id t.1 ≡ tried id m + more

  one-Tried :
      (id device : Text) (m : VictronMetrics.Metrics) (done : D × Bool)
      → m ≢ none
      → Tried id m
          (if text_eq device id then 1 else 0)
          (done.0, VictronMetrics.record_insert m device done.1)
  one-Tried id device m done h =
      let (k, one) = record_insert-tried m device id done.1 h in
      record { reported = k; counted_once = one }

  pub insert_reading-Tried :
      (r : LibReading lib) (db : D) (m : VictronMetrics.Metrics) (id : Text)
      → m ≢ none
      → IsFilled lib r
      → Tried id m
          (if text_eq r.device_id id then 1 else 0)
          (insert_reading exec payloads (db, m) r)
  unfolding insert_reading insert_solar_charger insert_battery_monitor
  insert_reading-Tried r db m id h p = elim (Option-cases r.solar_charger) [
    | inr (charger, e) ↦
        rw (e, insert_reading)
          (one-Tried id r.device_id m (insert_victron exec db (charger_measure payloads r charger))
            h)
    | inl e ↦ elim (Option-cases r.battery_monitor) [
      | inr (monitor, f) ↦
          rw (e, insert_reading)
            (rw (f, insert_reading)
              (one-Tried id r.device_id m
                (insert_victron_battery_monitor exec db (monitor_measure payloads r monitor)) h))
      | inl f ↦ elim p [ inl (a, b, c) ↦ absurd (b e) | inr (a, b, c) ↦ absurd (c f) ]
    ]
  ]

  -- The loop that writes the readings of the devices counts each reading once, under its device,
  -- whether or not its insert failed, if each has exactly the payload that its record type says and the metrics are not nil.
  pub drain_counts_devices :
      (readings : List (LibReading lib)) (db : D) (m : VictronMetrics.Metrics) (id : Text)
      → m ≢ none
      → All (IsFilled lib) readings
      → tried id (drain (insert_reading exec payloads) readings (db, m)).1
        ≡ tried id m + of_device id readings
  unfolding drain
  drain_counts_devices [] db m id h p = omega arith
  drain_counts_devices (r ∷ rs) db m id h (p, ps) =
      let t = insert_reading-Tried r db m id h p in
      let s = insert_reading exec payloads (db, m) r in
      drain_counts_devices rs s.0 s.1 id t.reported ps ∙ omega (arith, t.counted_once)
