-- ===== src/Litime/Manager/Settings.antt =====
-- The settings that NewManager lets through.
use litime_timescaledb_inser.Prelude.{
  ℕ, ◌*◌, ◌<◌, ◌≡◌, ◌≢◌, refl, sym, subst, ◌⊎◌, inl, inr, true, false, List, [], ◌∷◌, Result, ok,
  err, ℤ, pos, arith, Bool-cases,
}
use litime_timescaledb_inser.Prelude.Int.{ltb_ℤ, pos_part}
use litime_timescaledb_inser.Strings.{Text}
use litime_timescaledb_inser.Durations.{second}
use litime_timescaledb_inser.Litime.Battery.{Battery}
use litime_timescaledb_inser.Litime.Adapter.{Platform, AdapterError, resolve_adapter}
use litime_timescaledb_inser.Litime.Queue.{new_queue}
use litime_timescaledb_inser.Litime.Manager.{
  ManagerOptions, Manager, or_default, with_defaults, build, check_timeouts, new_manager,
}

list_cases : (bs : List Battery) → (bs ≡ []) ⊎ ((c : Battery) × (cs : List Battery) × (bs ≡ c ∷ cs))
list_cases [] = inl refl
list_cases (c ∷ cs) = inr (c, cs, refl)

or_default-positive :
    (x : ℤ) (d : ℕ)
    → 0 < d
    → (ltb_ℤ (pos 0) (or_default x d) ≡ true) × (0 < pos_part (or_default x d))
or_default-positive x d h = ground arith

module _ {Adapter Data : Type 0} (default_adapter : Adapter) (new_adapter : Text → Adapter) where
  pub record IsSound (opts : ManagerOptions) (m : Manager Adapter Data) : Type 0 where
    pub supervised : (m.batteries ≡ opts.batteries) × (m.batteries ≢ [])
    pub polls : ltb_ℤ (pos 0) m.scrape_interval ≡ true
    pub outlasts : ltb_ℤ m.scrape_interval m.stale_timeout ≡ true
    pub holds : 0 < m.queue.readings.capacity
    pub fresh :
        (m.queue.readings.items ≡ []) × (m.queue.readings.closed ≡ false) × (m.queue.closed ≡ false)

  module _ (opts : ManagerOptions) (m : Manager Adapter Data) where
    abbrev Holds : Type 0
    Holds =
        (m.batteries ≡ opts.batteries)
        × (m.scrape_interval ≡ opts.scrape_interval)
        × (m.stale_timeout ≡ opts.stale_timeout)
        × (m.queue ≡ new_queue (pos_part opts.buffer_size))

    build-Holds :
        (r : Result AdapterError Adapter) → build default_adapter new_adapter opts r ≡ ok m → Holds
    unfolding build
    build-Holds (ok a) h = ground arith
    build-Holds (err e) h = absurd (ground arith)

    check_timeouts-Holds :
        (platform : Platform)
        → check_timeouts default_adapter new_adapter platform opts ≡ ok m
        → Holds × (ltb_ℤ opts.scrape_interval opts.stale_timeout ≡ true)
    unfolding check_timeouts
    check_timeouts-Holds platform h =
        elim (Bool-cases (ltb_ℤ opts.scrape_interval opts.stale_timeout)) [
          | inl e ↦ (
            build-Holds (resolve_adapter default_adapter new_adapter platform opts.adapter_name)
                (rw e at h),
            e,
          )
          | inr e ↦ absurd (ground arith)
        ]

  -- The settings of a Manager, each with its default where the option is not positive.
  pub record Keeps (platform : Platform) (opts : ManagerOptions) (m : Manager Adapter Data)
      : Type 0 where
    pub batteries : m.batteries ≡ opts.batteries
    pub scrape_interval : m.scrape_interval ≡ or_default opts.scrape_interval (10 * second)
    pub scan_timeout : m.scan_timeout ≡ opts.scan_timeout
    pub stale_timeout : m.stale_timeout ≡ or_default opts.stale_timeout (90 * second)
    pub adapter :
        resolve_adapter default_adapter new_adapter platform opts.adapter_name ≡ ok m.adapter
    pub queue : m.queue ≡ new_queue (pos_part (or_default opts.buffer_size 256))

  module _ (opts : ManagerOptions) (m : Manager Adapter Data) where
    build-adapter :
        (r : Result AdapterError Adapter)
        → build default_adapter new_adapter opts r ≡ ok m
        → (m.scan_timeout ≡ opts.scan_timeout) × (r ≡ ok m.adapter)
    unfolding build
    build-adapter (ok a) h = ground arith
    build-adapter (err e) h = absurd (ground arith)

    check_timeouts-adapter :
        (platform : Platform)
        → check_timeouts default_adapter new_adapter platform opts ≡ ok m
        → (m.scan_timeout ≡ opts.scan_timeout)
          × (resolve_adapter default_adapter new_adapter platform opts.adapter_name ≡ ok m.adapter)
    unfolding check_timeouts
    check_timeouts-adapter platform h =
        elim (Bool-cases (ltb_ℤ opts.scrape_interval opts.stale_timeout)) [
          | inl e ↦
              build-adapter (resolve_adapter default_adapter new_adapter platform opts.adapter_name)
                (rw e at h)
          | inr e ↦ absurd (ground arith)
        ]

  -- Each setting of a Manager that NewManager returns is that of its options, or the default.
  pub new_manager-Keeps :
      (platform : Platform) (opts : ManagerOptions) (m : Manager Adapter Data)
      → new_manager default_adapter new_adapter platform opts ≡ ok m
      → Keeps platform opts m
  unfolding new_manager with_defaults
  new_manager-Keeps platform opts m h = elim (list_cases opts.batteries) [
    | inl e ↦ absurd (ground arith)
    | inr (b, bs, e) ↦
        let checked : check_timeouts default_adapter new_adapter platform (with_defaults opts)
            ≡ ok m =
          (rw (e, new_manager) at h) in
        let k = check_timeouts-Holds (with_defaults opts) m platform checked in
        let l = check_timeouts-adapter (with_defaults opts) m platform checked in
        record {
          batteries = k.0.0;
          scrape_interval = k.0.1;
          scan_timeout = l.0;
          stale_timeout = k.0.2;
          adapter = l.1;
          queue = k.0.3;
        }
  ]

  -- A Manager that NewManager returns has the batteries of its options, at least one, a positive
  -- scrape interval, a stale timeout above it, and an empty open queue with room for at least one
  -- reading.
  pub new_manager-IsSound :
      (platform : Platform) (opts : ManagerOptions) (m : Manager Adapter Data)
      → new_manager default_adapter new_adapter platform opts ≡ ok m
      → IsSound opts m
  unfolding new_manager new_queue with_defaults
  new_manager-IsSound platform opts m h = elim (list_cases opts.batteries) [
    | inl e ↦ absurd (ground arith)
    | inr (b, bs, e) ↦
        let k = check_timeouts-Holds (with_defaults opts) m platform (rw (e, new_manager) at h) in
        record {
          supervised = (k.0.0, λ q. cc (q, e, k.0.0));
          polls =
              subst (λ x. ltb_ℤ (pos 0) x ≡ true) (sym k.0.1)
                (or_default-positive opts.scrape_interval (10 * second) (omega arith)).0;
          outlasts =
              subst (λ x. ltb_ℤ x m.stale_timeout ≡ true) (sym k.0.1)
                (subst (λ x. ltb_ℤ (with_defaults opts).scrape_interval x ≡ true) (sym k.0.2) k.1);
          holds =
              subst (λ q. 0 < q.readings.capacity) (sym k.0.3)
                (or_default-positive opts.buffer_size 256 (omega arith)).1;
          fresh = rw k.0.3 (refl, refl, refl);
        }
  ]
