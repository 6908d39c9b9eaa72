-- ===== src/Victron/Collector/Missed.antt =====
-- What a scan counts as missed.
use litime_timescaledb_inser.Prelude.{
  ℕ, suc, ℤ, ◌+◌, ◌≡◌, ◌≢◌, refl, sym, ap, subst, ◌∙◌, inl, inr, Bool, true, false, List, [], ◌∷◌,
  Option, none, some, Result, ok, ◌>>=◌, if◌then◌else◌, ◌||◌, ◌&&◌, arith, Bool-cases, Option-cases,
  is_empty,
}
use litime_timescaledb_inser.Strings.{Text, text_eq, to_upper}
use litime_timescaledb_inser.Strings.Laws.{text_eq_iff}
use litime_timescaledb_inser.Maps.{Map, lookup}
use litime_timescaledb_inser.Channel.{Panic}
use litime_timescaledb_inser.Telemetry.{measure, measure-reported, total, total-measure}
use litime_timescaledb_inser.Victron.Device.{Device}
use litime_timescaledb_inser.Victron.Metrics.{Metrics, Instrument, missed, same, record_missed}
use litime_timescaledb_inser.Victron.Collector.{Library, Bytes, Discovered, State, handle}
use litime_timescaledb_inser.Victron.Collector.Sightings.{IsCoherent, Seen, Reads, handle_sees}
use litime_timescaledb_inser.Victron.Collector.Scan.{
  is_seen, count_missed, mark_seen, sight, sight_all, scan_once, scan_addresses,
}

-- How many devices of the list have the ID.
abbrev pub configured : Text → List (Device Bytes) → ℕ
configured id [] = 0
configured id (d ∷ ds) = (if text_eq d.id id then 1 else 0) + configured id ds

-- The value of the missed counter for a device.
abbrev pub missed_of : Text → Metrics → ℕ
missed_of id m = total same missed id m

is_seen-same :
    (i j : Text) (seen : List Text) → text_eq i j ≡ true → is_seen i seen ≡ is_seen j seen
is_seen-same i j seen h = ap (λ k. is_seen k seen) ((text_eq_iff i j).0 h)

missed_of-record_missed :
    (m : Metrics) (j id : Text)
    → m ≢ none
    → (record_missed m j ≢ none)
      × (missed_of id (record_missed m j) ≡ missed_of id m + (if text_eq j id then 1 else 0))
unfolding record_missed text_eq
missed_of-record_missed m j id h =
    (measure-reported m missed 1 j h, total-measure same missed id m missed 1 j h)

missed_of-other :
    (m : Metrics) (i : Instrument) (j id : Text)
    → m ≢ none
    → same i missed ≡ false
    → missed_of id (measure m i 1 j) ≡ missed_of id m
missed_of-other m i j id h n = ground (arith, total-measure same missed id m i 1 j h)

-- The loop counts each configured device that was not seen, once for each time it is configured,
-- and no other.
count_missed-counts :
    (ds : List (Device Bytes)) (seen : List Text) (m : Metrics) (id : Text)
    → m ≢ none
    → missed_of id (count_missed ds seen m)
      ≡ missed_of id m + (if is_seen id seen then 0 else configured id ds)
unfolding count_missed
count_missed-counts [] seen m id h = ground arith
count_missed-counts (d ∷ ds) seen m id h = elim (Bool-cases (is_seen d.id seen)) [
  | inl e ↦
      let rest = count_missed-counts ds seen m id h in
      rw e (rest ∙ ap (λ k. missed_of id m + k) (ground (arith, is_seen-same d.id id seen)))
  | inr e ↦
      let (n, one) = missed_of-record_missed m d.id id h in
      let rest = count_missed-counts ds seen (record_missed m d.id) id n in
      rw e (
        rest
        ∙ ap (λ k. k + (if is_seen id seen then 0 else configured id ds)) one
        ∙ ground (arith, is_seen-same d.id id seen))
]

module _ (lib : Library) where
  -- The advertisement carries an instant readout that parses.
  abbrev pub reads : {Address : Type 0} → Discovered Address → Bool
  reads found = elim (found.manufacturer_data lib.company_id) [
    | none ↦ false
    | some bytes ↦ elim (lib.parse_record bytes) [ none ↦ false | some r ↦ true ]
  ]

  reads-true :
      {Address : Type 0} (found : Discovered Address) → Reads lib found → reads found ≡ true
  reads-true found (b, r, p, q) = rw (p, reads) (rw (q, reads) refl)

  reads-false :
      {Address : Type 0} (found : Discovered Address) → ¬ Reads lib found → reads found ≡ false
  reads-false found h = elim (Option-cases (found.manufacturer_data lib.company_id)) [
    | inl e ↦ rw (e, reads) refl
    | inr (b, e) ↦ elim (Option-cases (lib.parse_record b)) [
      | inl f ↦ rw (e, reads) (rw (f, reads) refl)
      | inr (r, f) ↦ absurd (h (b, r, e, f))
    ]
  ]

module _ {Address : Type 0} (lib : Library) (above : ℕ → ℕ) (parse_address : Text → Option Address)
    (address_string : Address → Text) (by_address : Map (Device Bytes)) where
  abbrev at : Discovered Address → Option (Device Bytes)
  at found = lookup (to_upper above (address_string found.address)) by_address

  abbrev sighted_by : Text → Option (Device Bytes) → Discovered Address → Bool
  sighted_by id none found = false
  sighted_by id (some d) found = text_eq d.id id && reads lib found

  -- One of the devices found is at the address of a configured device with this ID and carries an
  -- instant readout that parses.
  abbrev pub sighted : Text → List (Discovered Address) → Bool
  sighted id [] = false
  sighted id (found ∷ rest) = sighted_by id (at found) found || sighted id rest

  abbrev Sighting : Type 0
  Sighting = State lib × List Text

  -- What a part of the loop over the devices found leaves behind, for one ID.
  record Went (id : Text) (s : Sighting) (saw : Bool) (r : Result Panic Sighting) : Type 0 where
    to : Sighting
    is_ok : r ≡ ok to
    coherent : IsCoherent lib to.0
    reported : to.0.metrics ≢ none
    same_missed : missed_of id to.0.metrics ≡ missed_of id s.0.metrics
    marked : is_seen id to.1 ≡ (saw || is_seen id s.1)

  module _ (devices : List (Device Bytes)) (clock : ℕ → ℤ) (id : Text) where
    abbrev one : ℤ → Discovered Address → Sighting → Result Panic Sighting
    one = sight lib above parse_address address_string devices by_address clock

    Seen-Went :
        (d : Device Bytes) (found : Discovered Address) (c : State lib) (seen : List Text)
        (r : Result Panic (State lib × Bool))
        → c.metrics ≢ none
        → Reads lib found
        → Seen lib d.id c r
        → Went id
            (c, seen)
            (text_eq d.id id && reads lib found)
            (r >>= λ x. ok (mark_seen d.id seen x))
    unfolding is_seen
    Seen-Went d found c seen r n p s = record {
      to = (s.after, d.id ∷ seen);
      is_ok = ap (λ q. q >>= λ x. ok (mark_seen d.id seen x)) s.is_ok;
      coherent = s.coherent;
      reported =
          subst (λ m. m ≢ none) (sym s.counted) (measure-reported c.metrics s.instrument 1 d.id n);
      same_missed =
          ap (missed_of id) s.counted
          ∙ missed_of-other c.metrics s.instrument d.id id n s.not_missed;
      marked = ground (arith, reads-true lib found p);
    }

    sight-Went :
        (found : Discovered Address) (now : ℤ) (c : State lib) (seen : List Text)
        → IsCoherent lib c
        → c.metrics ≢ none
        → Went id (c, seen) (sighted_by id (at found) found) (one now found (c, seen))
    unfolding sight
    sight-Went found now c seen h n = elim (Option-cases (at found)) [
      | inl e ↦
          rw (e, sight)
            (record {
              to = (c, seen);
              is_ok = refl;
              coherent = h;
              reported = n;
              same_missed = refl;
              marked = refl;
            })
      | inr (d, e) ↦
          rw (e, sight)
            (elim (handle_sees lib c d now found h) [
              | inl (p, s) ↦ Seen-Went d found c seen (handle lib c d now found) n p s
              | inr (np, q) ↦ rw q (record {
                to = (c, seen);
                is_ok = refl;
                coherent = h;
                reported = n;
                same_missed = refl;
                marked = ground (arith, reads-false lib found np);
              })
            ])
    ]

    all-Went :
        (devices_found : List (Discovered Address)) (n : ℕ) (c : State lib) (seen : List Text)
        → IsCoherent lib c
        → c.metrics ≢ none
        → Went id
            (c, seen)
            (sighted id devices_found)
            (sight_all lib above parse_address address_string devices by_address clock n
              devices_found
              (c, seen))
    unfolding sight_all
    all-Went [] n c seen h m = record {
      to = (c, seen);
      is_ok = refl;
      coherent = h;
      reported = m;
      same_missed = refl;
      marked = refl;
    }
    all-Went (found ∷ rest) n c seen h m =
        let first = sight-Went found (clock n) c seen h m in
        let later = all-Went rest (suc n) first.to.0 first.to.1 first.coherent first.reported in
        record {
          to = later.to;
          is_ok =
              ap
                (λ q. q >>= λ t.
                  sight_all lib above parse_address address_string devices by_address clock (suc n)
                    rest t)
                first.is_ok
              ∙ later.is_ok;
          coherent = later.coherent;
          reported = later.reported;
          same_missed = later.same_missed ∙ first.same_missed;
          marked = later.marked ∙ ap (λ b. sighted id rest || b) first.marked ∙ ground arith;
        }

    -- A scan that succeeds ends without a panic; it counts a configured device as missed exactly if no
    -- device found is at the address of a configured device with its ID and carries an instant readout
    -- that parses, and then once for each time that the ID is configured. Conditions: the closed flag
    -- agrees with the channel, the metrics are not nil, and the address of some device parses.
    pub scan_once_missed :
        (scan : List Address → Option (List (Discovered Address))) (cancelled : Bool)
        (c : State lib) (devices_found : List (Discovered Address))
        → IsCoherent lib c
        → c.metrics ≢ none
        → is_empty (scan_addresses parse_address devices) ≡ false
        → scan (scan_addresses parse_address devices) ≡ some devices_found
        → (t : State lib) × (scan_once lib above parse_address address_string devices by_address
              clock scan cancelled c
            ≡ ok t)
          × (missed_of id t.metrics
              ≡ missed_of id c.metrics
                + (if sighted id devices_found then 0 else configured id devices))
    unfolding scan_once is_seen
    scan_once_missed scan cancelled c devices_found h m a e =
        let w = all-Went devices_found 0 c [] h m in
        let missed_after =
          ap (λ k. k + (if is_seen id w.to.1 then 0 else configured id devices)) w.same_missed
          ∙ ap (λ b. missed_of id c.metrics + (if b then 0 else configured id devices))
              (w.marked ∙ ground arith) in
        (
          record (w.to.0) { metrics = count_missed devices w.to.1 w.to.0.metrics },
          rw (a, scan_once)
              (rw (e, scan_once)
                (ap
                  (λ r.
                    r >>= λ s. ok (record (s.0) { metrics = count_missed devices s.1 s.0.metrics }))
                  w.is_ok)),
          count_missed-counts devices w.to.1 w.to.0.metrics id w.reported ∙ missed_after,
        )
