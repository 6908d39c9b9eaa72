-- ===== src/Victron/Collector/Sightings.antt =====
-- When handle reports a device as seen, what it counts, and what it publishes.
use litime_timescaledb_inser.Prelude.{
  ℤ, ◌≡◌, ◌≢◌, refl, inl, inr, ◌⊎◌, Bool, true, false, [], ◌∷◌, ◌++◌, Option, none, some, Result,
  ok, if_ind, ◌==◌, ◌||◌, arith, Bool-cases, Option-cases, length, ltb,
}
use litime_timescaledb_inser.Strings.{Text}
use litime_timescaledb_inser.Channel.{Panic}
use litime_timescaledb_inser.Telemetry.{measure}
use litime_timescaledb_inser.Victron.Device.{Device}
use litime_timescaledb_inser.Victron.Metrics.{
  Instrument, same, readings, missed, dropped, decode_failures, decrypt_failures, unsupported,
  record_decrypt_failure,
}
use litime_timescaledb_inser.Victron.Collector.{
  Library, Bytes, Discovered, LibReading, State, bare_reading, fill_payload, handle_filled,
  handle_record, handle, publish,
}

module _ (lib : Library) where
  open lib use {
    Record, company_id, record_solar_charger, record_battery_monitor, parse_record, record_type,
  }

  -- The flag closed says whether the channel is closed.
  abbrev pub IsCoherent : State lib → Type 0
  IsCoherent c = c.readings.closed ≡ c.closed

  -- The queue has grown by one reading of the device, or is as it was; the instrument says which.
  abbrev pub Kept : Text → State lib → State lib → Instrument → Type 0
  Kept id c t i =
      ((i ≡ readings)
        × ((r : LibReading lib) × (r.device_id ≡ id)
            × (t.readings.items ≡ c.readings.items ++ r ∷ [])))
      ⊎ ((i ≢ readings) × (t.readings.items ≡ c.readings.items))

  -- Nothing panics, the device counts as seen, and one count is made for it.
  pub record Seen (id : Text) (c : State lib) (r : Result Panic (State lib × Bool)) : Type 0 where
    pub after : State lib
    pub is_ok : r ≡ ok (after, true)
    pub coherent : IsCoherent after
    pub instrument : Instrument
    pub counted : after.metrics ≡ measure c.metrics instrument 1 id
    pub kept : Kept id c after instrument
    pub still : after.closed ≡ c.closed
    pub not_missed : same instrument missed ≡ false

  -- A pass that only counts.
  only-Seen :
      (id : Text) (c : State lib) (i : Instrument)
      → IsCoherent c
      → i ≢ readings
      → same i missed ≡ false
      → Seen id c (ok (record c { metrics = measure c.metrics i 1 id }, true))
  only-Seen id c i h n nm = record {
    after = record c { metrics = measure c.metrics i 1 id };
    is_ok = refl;
    coherent = h;
    instrument = i;
    counted = refl;
    kept = inr (n, refl);
    still = refl;
    not_missed = nm;
  }

  -- The reading, if there is one, is of the device.
  abbrev IsOf : Text → Option (LibReading lib) → Type 0
  IsOf id none = Unit
  IsOf id (some reading) = reading.device_id ≡ id

  fill_payload-IsOf :
      (id : Text) (now : ℤ) (r : Record) (payload : Bytes)
      → IsOf id (fill_payload lib r payload (bare_reading lib id now r))
  unfolding fill_payload bare_reading
  fill_payload-IsOf id now r payload =
      if_ind (IsOf id) (record_type r == record_solar_charger)
        (elim (Option-cases (lib.parse_solar_charger payload)) [
          | inl e ↦ rw (e, fill_payload) tt
          | inr (charger, e) ↦ rw (e, fill_payload) refl
        ])
        (if_ind (IsOf id) (record_type r == record_battery_monitor)
          (elim (Option-cases (lib.parse_battery_monitor payload)) [
            | inl e ↦ rw (e, fill_payload) tt
            | inr (monitor, e) ↦ rw (e, fill_payload) refl
          ])
          refl)

  module _ (id : Text) (c : State lib) (h : IsCoherent c) where
    refused-Seen :
        (reading : LibReading lib)
        → publish c reading ≡ ok (c, false)
        → Seen id c (handle_filled lib id c (some reading))
    unfolding handle_filled
    refused-Seen reading e = rw e (only-Seen id c dropped h (λ q. cc) refl)

    filled-Seen :
        (reading : Option (LibReading lib))
        → IsOf id reading
        → Seen id c (handle_filled lib id c reading)
    unfolding handle_filled publish
    filled-Seen none of_id = only-Seen id c decode_failures h (λ q. cc) refl
    filled-Seen (some reading) of_id = elim (Bool-cases c.closed) [
      | inl e ↦ refused-Seen reading (ground arith)
      | inr e ↦ elim (Bool-cases (ltb (length c.readings.items) c.readings.capacity)) [
        | inl room ↦ record {
          after = record c {
            readings = record (c.readings) { items = c.readings.items ++ reading ∷ [] };
            metrics = measure c.metrics readings 1 id;
          };
          is_ok = ground arith;
          coherent = h;
          instrument = readings;
          counted = refl;
          kept = inl (refl, (reading, of_id, refl));
          still = refl;
          not_missed = refl;
        }
        | inr full ↦ refused-Seen reading (ground arith)
      ]
    ]

    record-Seen :
        (key : Bytes) (now : ℤ) (r : Record) → Seen id c (handle_record lib id c key now r)
    unfolding handle_record
    record-Seen key now r =
        if_ind (Seen id c)
          (record_type r == record_solar_charger || record_type r == record_battery_monitor)
          (decrypted (lib.decrypt r key))
          (only-Seen id c (unsupported (lib.type_string (record_type r))) h (λ q. cc) refl)
      where
        decrypted :
            (payload : Option Bytes)
            → Seen id c (elim payload [
              | none ↦ ok (record c { metrics = record_decrypt_failure c.metrics id }, true)
              | some p ↦ handle_filled lib id c (fill_payload lib r p (bare_reading lib id now r))
            ])
        decrypted none = only-Seen id c decrypt_failures h (λ q. cc) refl
        decrypted (some p) =
            filled-Seen (fill_payload lib r p (bare_reading lib id now r))
              (fill_payload-IsOf id now r p)

  -- The advertisement carries an instant readout that parses.
  abbrev pub Reads : {Address : Type 0} → Discovered Address → Type 0
  Reads found =
      (bytes : Bytes) × (r : Record) × (found.manufacturer_data company_id ≡ some bytes)
      × (parse_record bytes ≡ some r)

  -- An advertisement with an instant readout that parses makes the device count as seen, whether or
  -- not its type is supported, its key fits, its payload parses or the queue has room: nothing
  -- panics, the queue stays open or closed as it was, exactly one count is made for the device, and
  -- the queue grows, by one reading of the device, exactly if that count is a reading. Any other
  -- advertisement changes nothing, and the device does not count as seen. Condition: the closed flag
  -- agrees with the channel.
  pub handle_sees :
      {Address : Type 0} (c : State lib) (device : Device Bytes) (now : ℤ)
      (found : Discovered Address)
      → IsCoherent c
      → (Reads found × Seen device.id c (handle lib c device now found))
        ⊎ ((¬ Reads found) × (handle lib c device now found ≡ ok (c, false)))
  unfolding handle
  handle_sees c device now found h = elim (Option-cases (found.manufacturer_data company_id)) [
    | inl e ↦ inr (λ (b, r, p, q). cc (e, p), rw (e, handle))
    | inr (b, e) ↦ elim (Option-cases (parse_record b)) [
      | inl f ↦ inr (λ (b', r, p, q). cc (e, f, p, q), rw (e, handle) (rw (f, handle)))
      | inr (r, f) ↦ inl (
        (b, r, e, f),
        rw (e, handle) (rw (f, handle) (record-Seen device.id c h device.key now r)),
      )
    ]
  ]
