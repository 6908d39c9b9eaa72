-- ===== src/Victron/Collector/Scan/Settings.antt =====
-- The settings that NewCollector lets through.
use litime_timescaledb_inser.Prelude.{
  ℕ, ◌*◌, ◌<◌, ◌≡◌, ◌≢◌, refl, sym, subst, ap, ◌∙◌, ◌⊎◌, inl, inr, true, false, List, [], ◌∷◌,
  Option, none, some, ok, ℤ, pos, arith, Bool-cases, Option-cases, if◌then◌else◌,
}
use litime_timescaledb_inser.Prelude.Int.{ltb_ℤ, pos_part}
use litime_timescaledb_inser.Strings.{Text, text_eq}
use litime_timescaledb_inser.Maps.{Map, lookup, insert}
use litime_timescaledb_inser.Maps.Laws.{lookup-insert}
use litime_timescaledb_inser.Durations.{second}
use litime_timescaledb_inser.Channel.{make}
use litime_timescaledb_inser.Victron.Device.{Device}
use litime_timescaledb_inser.Victron.Collector.{Bytes}
use litime_timescaledb_inser.Victron.Collector.Scan.{
  CollectorOptions, Collector, or_default, index_devices, fill_options, build, new_collector,
}

-- The last device of the list that has the address.
abbrev pub last_at : Text → List (Device Bytes) → Option (Device Bytes) → Option (Device Bytes)
last_at address [] found = found
last_at address (d ∷ ds) found =
    last_at address ds (if text_eq d.address address then some d else found)

lookup-index_devices :
    (address : Text) (ds : List (Device Bytes)) (m : Map (Device Bytes))
    → lookup address (index_devices ds m) ≡ last_at address ds (lookup address m)
unfolding index_devices
lookup-index_devices address [] m = refl
lookup-index_devices address (d ∷ ds) m =
    lookup-index_devices address ds (insert d.address d m)
    ∙ ap (last_at address ds) (lookup-insert d.address address d m)

device_cases :
    (ds : List (Device Bytes))
    → (ds ≡ []) ⊎ ((e : Device Bytes) × (es : List (Device Bytes)) × (ds ≡ e ∷ es))
device_cases [] = inl refl
device_cases (e ∷ es) = inr (e, es, refl)

or_default-positive :
    (x : ℤ) (d : ℕ)
    → 0 < d
    → (ltb_ℤ (pos 0) (or_default x d) ≡ true) × (0 < pos_part (or_default x d))
or_default-positive x d h = ground arith

module _ {Adapter A : Type 0} where
  pub record IsSound (opts : CollectorOptions Adapter) (c : Collector Adapter A) : Type 0 where
    pub watched : (c.devices ≡ opts.devices) × (c.devices ≢ [])
    pub indexed : (address : Text) → lookup address c.by_address ≡ last_at address opts.devices none
    pub scans : ltb_ℤ (pos 0) c.scan_duration ≡ true
    pub rests : ltb_ℤ c.scan_duration c.scan_interval ≡ true
    pub holds : 0 < c.readings.capacity
    pub fresh : (c.readings.items ≡ []) × (c.readings.closed ≡ false) × (c.closed ≡ false)

  -- What build makes of options.
  pub record Built (opts : CollectorOptions Adapter) (c : Collector Adapter A) : Type 0 where
    pub same : (c.devices ≡ opts.devices) × (c.by_address ≡ index_devices opts.devices [])
    pub times : (c.scan_duration ≡ opts.scan_duration) × (c.scan_interval ≡ opts.scan_interval)
    pub queue : c.readings ≡ make (pos_part opts.buffer_size)
    pub open_yet : c.closed ≡ false
    pub shorter : ltb_ℤ opts.scan_duration opts.scan_interval ≡ true
    pub given : opts.adapter ≡ some c.adapter

  build-Built :
      (opts : CollectorOptions Adapter) (c : Collector Adapter A) → build opts ≡ ok c → Built opts c
  unfolding build
  build-Built opts c h = elim (Bool-cases (ltb_ℤ opts.scan_duration opts.scan_interval)) [
    | inl e ↦ elim (Option-cases opts.adapter) [
      | inl n ↦ absurd (ground arith)
      | inr (a, p) ↦ ground (arith, e, p, h)
    ]
    | inr e ↦ absurd (ground arith)
  ]

  -- The settings of a Collector, each with its default where the option is not positive.
  pub record Keeps (opts : CollectorOptions Adapter) (c : Collector Adapter A) : Type 0 where
    pub devices : (c.devices ≡ opts.devices) × (c.devices ≢ [])
    pub scan_interval : c.scan_interval ≡ or_default opts.scan_interval (60 * second)
    pub scan_duration : c.scan_duration ≡ or_default opts.scan_duration (5 * second)
    pub adapter : opts.adapter ≡ some c.adapter
    pub readings : c.readings ≡ make (pos_part (or_default opts.buffer_size 64))

  -- Each setting of a Collector that NewCollector returns is that of its options, or the default.
  pub new_collector-Keeps :
      (opts : CollectorOptions Adapter) (c : Collector Adapter A)
      → new_collector opts ≡ ok c
      → Keeps opts c
  unfolding new_collector fill_options
  new_collector-Keeps opts c h = elim (device_cases opts.devices) [
    | inl e ↦ absurd (ground arith)
    | inr (d, ds, e) ↦
        let b = build-Built (fill_options opts) c (rw (e, new_collector) at h) in
        record {
          devices = (b.same.0, λ q. cc (q, e, b.same.0));
          scan_interval = b.times.1;
          scan_duration = b.times.0;
          adapter = b.given;
          readings = b.queue;
        }
  ]

  -- A Collector that NewCollector returns watches the devices of its options, at least one, looks a
  -- device up by its address, the last one where two have the same, scans for a positive time that is
  -- shorter than its interval, and has an empty open queue with room for at least one reading.
  pub new_collector-IsSound :
      (opts : CollectorOptions Adapter) (c : Collector Adapter A)
      → new_collector opts ≡ ok c
      → IsSound opts c
  unfolding new_collector fill_options make lookup
  new_collector-IsSound opts c h = elim (device_cases opts.devices) [
    | inl e ↦ absurd (ground arith)
    | inr (d, ds, e) ↦
        let b = build-Built (fill_options opts) c (rw (e, new_collector) at h) in
        record {
          watched = (b.same.0, λ q. cc (q, e, b.same.0));
          indexed = λ address.
              ap (lookup address) b.same.1 ∙ lookup-index_devices address opts.devices [];
          scans =
              subst (λ x. ltb_ℤ (pos 0) x ≡ true) (sym b.times.0)
                (or_default-positive opts.scan_duration (5 * second) (omega arith)).0;
          rests =
              subst (λ x. ltb_ℤ x c.scan_interval ≡ true) (sym b.times.0)
                (subst (λ x. ltb_ℤ (fill_options opts).scan_duration x ≡ true) (sym b.times.1)
                  b.shorter);
          holds =
              subst (λ q. 0 < q.capacity) (sym b.queue)
                (or_default-positive opts.buffer_size 64 (omega arith)).1;
          fresh = rw b.queue (refl, refl, b.open_yet);
        }
  ]
