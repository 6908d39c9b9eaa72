-- ===== src/Victron/Collector/Run/Returns.antt =====
-- When Run of the Collector returns, and what it leaves.
use litime_timescaledb_inser.Prelude.{
  ℕ, suc, ℤ, ◌≡◌, refl, ◌∙◌, inl, inr, Bool, true, false, List, [], ◌∷◌, Option, Result, ok, arith,
  Bool-cases, Option-cases, is_empty, if_ind,
}
use litime_timescaledb_inser.Strings.{Text, to_upper}
use litime_timescaledb_inser.Maps.{Map, lookup}
use litime_timescaledb_inser.Channel.{Panic, close}
use litime_timescaledb_inser.Victron.Device.{Device}
use litime_timescaledb_inser.Victron.Collector.{
  Library, Bytes, Discovered, State, handle, close_readings,
}
use litime_timescaledb_inser.Victron.Collector.Sightings.{handle_sees}
use litime_timescaledb_inser.Victron.Collector.Scan.{
  mark_seen, sight, sight_all, scan_once, scan_addresses,
}
use litime_timescaledb_inser.Victron.Collector.Run.{
  ScanRound, RunEvent, fired, stopped, scan_round, scan_loop, run,
}

module _ {Address : Type 0} where
  abbrev pub is_stopped : List (RunEvent Address) → Bool
  is_stopped [] = false
  is_stopped (stopped ∷ events) = true
  is_stopped (fired r ∷ events) = is_stopped events

module _ (lib : Library) where
  -- The queue is open, by the flag and by the channel.
  abbrev pub IsOpen : State lib → Type 0
  IsOpen c = (c.closed ≡ false) × (c.readings.closed ≡ false)

  -- No panic, and the queue is still open.
  abbrev StaysOpen : Result Panic (State lib) → Type 0
  StaysOpen r = (t : State lib) × (r ≡ ok t) × IsOpen t

module _ {Address : Type 0} (lib : Library) (above : ℕ → ℕ) (parse_address : Text → Option Address)
    (address_string : Address → Text) (devices : List (Device Bytes))
    (by_address : Map (Device Bytes)) where
  handle-IsOpen :
      (c : State lib) (device : Device Bytes) (now : ℤ) (found : Discovered Address)
      → IsOpen lib c
      → (t : State lib) × (seen : Bool) × (handle lib c device now found ≡ ok (t, seen))
        × IsOpen lib t
  handle-IsOpen c device now found o = elim (handle_sees lib c device now found (ground arith)) [
    | inl (p, s) ↦ (s.after, true, s.is_ok, (s.still ∙ o.0, s.coherent ∙ s.still ∙ o.0))
    | inr (n, q) ↦ (c, false, q, o)
  ]

  marked-IsOpen :
      (id : Text) (seen : List Text) (t : State lib) (saw : Bool)
      → IsOpen lib t
      → IsOpen lib (mark_seen id seen (t, saw)).0
  marked-IsOpen id seen t true o = o
  marked-IsOpen id seen t false o = o

  module _ (clock : ℕ → ℤ) where
    -- The loop over the devices found does not panic and leaves the queue open.
    sight_all-IsOpen :
        (found : List (Discovered Address)) (n : ℕ) (c : State lib) (seen : List Text)
        → IsOpen lib c
        → (t : State lib) × (seen' : List Text) × (sight_all lib above parse_address address_string
              devices by_address clock n found
              (c, seen)
            ≡ ok (t, seen'))
          × IsOpen lib t
    unfolding sight_all sight
    sight_all-IsOpen [] n c seen o = (c, seen, refl, o)
    sight_all-IsOpen (d ∷ ds) n c seen o =
        elim (Option-cases (lookup (to_upper above (address_string d.address)) by_address)) [
          | inl e ↦ rw (e, sight) (sight_all-IsOpen ds (suc n) c seen o)
          | inr (device, e) ↦
              let (t, saw, q, p) = handle-IsOpen c device (clock n) d o in
              rw (e, sight)
                (rw q (
                  sight_all-IsOpen ds (suc n) (mark_seen device.id seen (t, saw)).0
                    (mark_seen device.id seen (t, saw)).1 (marked-IsOpen device.id seen t saw p)))
        ]

  scan_round-StaysOpen :
      (r : ScanRound Address) (c : State lib)
      → IsOpen lib c
      → StaysOpen lib (scan_round lib above parse_address address_string devices by_address r c)
  unfolding scan_round scan_once
  scan_round-StaysOpen r c o = elim (Bool-cases (is_empty (scan_addresses parse_address devices))) [
    | inl e ↦ rw (e, scan_once) (c, refl, o)
    | inr e ↦ elim (Option-cases (r.scan (scan_addresses parse_address devices))) [
      | inl f ↦
          rw (e, scan_once)
            (rw (f, scan_once) (if_ind (StaysOpen lib) r.is_over (c, refl, o) (_, refl, o)))
      | inr (found, f) ↦
          let (t, seen, q, p) = sight_all-IsOpen r.clock found 0 c [] o in
          rw (e, scan_once) (rw (f, scan_once) (rw q (_, refl, p)))
    ]
  ]

  scan_loop-returns :
      (events : List (RunEvent Address)) (c : State lib)
      → IsOpen lib c
      → (t : State lib) × (scan_loop lib above parse_address address_string devices by_address
            events c
          ≡ ok (t, is_stopped events))
        × (t.closed ≡ is_stopped events)
        × (t.readings.closed ≡ is_stopped events)
  unfolding scan_loop close_readings close
  scan_loop-returns [] c o = (c, refl, o.0, o.1)
  scan_loop-returns (stopped ∷ events) c o = rw (o.1, close) (_, refl, refl, refl)
  scan_loop-returns (fired r ∷ events) c o =
      let (t, e, p) = scan_round-StaysOpen r c o in rw e (scan_loop-returns events t p)

  -- As long as the context is not cancelled Run goes on scanning with the queue open. Once it is
  -- cancelled Run returns at the next turn of its loop, and then the queue is closed, once. Nothing
  -- panics, whatever the scans find. Condition: the queue is open at the start, as a new Collector's.
  pub run_returns :
      (first : ScanRound Address) (events : List (RunEvent Address)) (c : State lib)
      → IsOpen lib c
      → (t : State lib) × (run lib above parse_address address_string devices by_address first
            events c
          ≡ ok (t, is_stopped events))
        × (t.closed ≡ is_stopped events)
        × (t.readings.closed ≡ is_stopped events)
  unfolding run
  run_returns first events c o =
      let (t, e, p) = scan_round-StaysOpen first c o in rw e (scan_loop-returns events t p)
