-- ===== src/Victron/Collector/Scan.antt =====
-- internal/victron/collector.go: NewCollector and scanOnce. The Bluetooth library's parser, printer
-- and scan are arguments; `scan` gives `none` for an error. The log lines are left out.
use litime_timescaledb_inser.Prelude.{
  ℕ, suc, ◌*◌, ℤ, pos, Bool, true, false, List, [], ◌∷◌, Option, none, some, Result, ok, err, ◌>>=◌,
  if◌then◌else◌, is_empty, ◌||◌,
}
use litime_timescaledb_inser.Prelude.Int.{ltb_ℤ, pos_part}
use litime_timescaledb_inser.Strings.{Text, text_eq, to_upper}
use litime_timescaledb_inser.Maps.{Map, lookup, insert}
use litime_timescaledb_inser.Durations.{Duration, second}
use litime_timescaledb_inser.Channel.{Channel, Panic, make}
use litime_timescaledb_inser.Victron.Device.{Device}
use litime_timescaledb_inser.Victron.Metrics.{Metrics, record_missed, record_scan_failure}
use litime_timescaledb_inser.Victron.Collector.{Library, Bytes, Discovered, State, handle}
pub mod Settings
mod Tests

pub record CollectorOptions (Adapter : Type 0) : Type 0 where
  pub devices : List (Device Bytes)
  pub scan_interval : Duration
  pub scan_duration : Duration
  pub buffer_size : ℤ
  pub adapter : Option Adapter

pub record Collector (Adapter A : Type 0) : Type 0 where
  pub devices : List (Device Bytes)
  pub by_address : Map (Device Bytes)
  pub scan_interval : Duration
  pub scan_duration : Duration
  pub adapter : Adapter
  pub readings : Channel A
  pub closed : Bool

pub data CollectorError : Type 0 where
  no_devices : CollectorError
  scan_not_below_interval : Duration → Duration → CollectorError
  no_adapter : CollectorError

-- `if x <= 0 { x = standard }`
abbrev or_default : ℤ → ℕ → ℤ
or_default x standard = if ltb_ℤ (pos 0) x then x else pos standard

-- The loop that fills byAddress: a later device with the same address replaces an earlier one.
unfoldable pub index_devices : List (Device Bytes) → Map (Device Bytes) → Map (Device Bytes)
unfolding insert
index_devices [] m = m
index_devices (d ∷ ds) m = index_devices ds (insert d.address d m)

module _ {Adapter : Type 0} where
  unfoldable pub fill_options : CollectorOptions Adapter → CollectorOptions Adapter
  fill_options opts = record opts {
    buffer_size = or_default opts.buffer_size 64;
    scan_interval = or_default opts.scan_interval (60 * second);
    scan_duration = or_default opts.scan_duration (5 * second);
  }

module _ {Adapter A : Type 0} where
  -- The tests behind the defaults.
  unfoldable pub build : CollectorOptions Adapter → Result CollectorError (Collector Adapter A)
  unfolding index_devices make
  build opts =
      if ltb_ℤ opts.scan_duration opts.scan_interval
      then elim opts.adapter [
        | none ↦ err no_adapter
        | some adapter ↦ ok (record {
          devices = opts.devices;
          by_address = index_devices opts.devices [];
          scan_interval = opts.scan_interval;
          scan_duration = opts.scan_duration;
          adapter = adapter;
          readings = make (pos_part opts.buffer_size);
          closed = false;
        })
      ]
      else err (scan_not_below_interval opts.scan_duration opts.scan_interval)

  unfoldable pub new_collector :
      CollectorOptions Adapter → Result CollectorError (Collector Adapter A)
  unfolding fill_options build
  new_collector opts = elim opts.devices [ [] ↦ err no_devices | _ ↦ build (fill_options opts) ]

-- Membership in the map `seen`, of which only the keys are used.
unfoldable pub is_seen : Text → List Text → Bool
is_seen id [] = false
is_seen id (k ∷ ks) = text_eq k id || is_seen id ks

module _ {Address : Type 0} (parse_address : Text → Option Address) where
  -- The addresses to scan for; a device whose address does not parse is skipped.
  unfoldable pub scan_addresses : List (Device Bytes) → List Address
  scan_addresses [] = []
  scan_addresses (d ∷ ds) =
      let rest = scan_addresses ds in
      elim (parse_address d.address) [ none ↦ rest | some a ↦ a ∷ rest ]

-- The last loop: a configured device that was not seen is counted as missed.
unfoldable pub count_missed : List (Device Bytes) → List Text → Metrics → Metrics
unfolding is_seen record_missed
count_missed [] seen m = m
count_missed (d ∷ ds) seen m =
    count_missed ds seen (if is_seen d.id seen then m else record_missed m d.id)

module _ {A : Type 0} where
  -- `if c.handle(…) { seen[device.ID] = struct{}{} }`
  abbrev pub mark_seen : Text → List Text → A × Bool → A × List Text
  mark_seen id seen (c, true) = (c, id ∷ seen)
  mark_seen id seen (c, false) = (c, seen)

module _ {Address : Type 0} (lib : Library) (above : ℕ → ℕ) (parse_address : Text → Option Address)
    (address_string : Address → Text) (devices : List (Device Bytes))
    (by_address : Map (Device Bytes)) (clock : ℕ → ℤ) where
  -- The body of the loop over the devices found.
  unfoldable pub sight :
      ℤ → Discovered Address → State lib × List Text → Result Panic (State lib × List Text)
  unfolding lookup to_upper
  sight now found (c, seen) =
      elim (lookup (to_upper above (address_string found.address)) by_address) [
        | none ↦ ok (c, seen)
        | some device ↦ handle lib c device now found >>= λ r. ok (mark_seen device.id seen r)
      ]

  -- `clock n` is the time at which the n-th device found is handled.
  unfoldable pub sight_all :
      ℕ → List (Discovered Address) → State lib × List Text → Result Panic (State lib × List Text)
  unfolding sight
  sight_all n [] s = ok s
  sight_all n (found ∷ rest) s = sight (clock n) found s >>= λ t. sight_all (suc n) rest t

  abbrev finish : State lib × List Text → State lib
  finish (c, seen) = record c { metrics = count_missed devices seen c.metrics }

  -- `cancelled` is ctx.Err() != nil behind a failed scan.
  unfoldable pub scan_once :
      (List Address → Option (List (Discovered Address)))
      → Bool
      → State lib
      → Result Panic (State lib)
  unfolding sight_all count_missed scan_addresses record_scan_failure
  scan_once scan cancelled c =
      if is_empty (scan_addresses parse_address devices)
      then ok c
      else elim (scan (scan_addresses parse_address devices)) [
        | none ↦
            if cancelled then ok c else ok (record c { metrics = record_scan_failure c.metrics })
        | some found ↦ sight_all 0 found (c, []) >>= λ s. ok (finish s)
      ]
