-- ===== src/Litime/Manager.antt =====
-- internal/litime/manager.go: NewManager, and what Run starts. The logger and the metrics are left
-- out.
use litime_timescaledb_inser.Prelude.{
  ℕ, ◌*◌, Bool, true, false, List, [], ◌∷◌, Option, none, some, Result, ok, err, ◌>>=◌, ℤ, pos,
  negsuc, if◌then◌else◌, not,
}
use litime_timescaledb_inser.Prelude.Int.{ltb_ℤ, pos_part}
use litime_timescaledb_inser.Strings.{Text}
use litime_timescaledb_inser.Maps.{Map, lookup}
use litime_timescaledb_inser.Durations.{Duration, second}
use litime_timescaledb_inser.Litime.Battery.{Battery}
use litime_timescaledb_inser.Litime.Adapter.{Platform, AdapterError, resolve_adapter}
use litime_timescaledb_inser.Litime.Queue.{Queue, new_queue}
use litime_timescaledb_inser.Litime.Resolve.{Discovered, ResolveError, resolve_addresses}
pub mod Settings
pub mod Run
mod Tests

pub record ManagerOptions : Type 0 where
  pub batteries : List Battery
  pub scrape_interval : Duration
  pub scan_timeout : Duration
  pub stale_timeout : Duration
  pub buffer_size : ℤ
  pub adapter_name : Text

pub record Manager (Adapter Data : Type 0) : Type 0 where
  pub batteries : List Battery
  pub scrape_interval : Duration
  pub scan_timeout : Duration
  pub stale_timeout : Duration
  pub adapter : Adapter
  pub queue : Queue Data

pub data ManagerError : Type 0 where
  no_batteries_configured : ManagerError
  stale_not_above_scrape : Duration → Duration → ManagerError
  bad_adapter : AdapterError → ManagerError

-- `if x <= 0 { x = standard }`
abbrev pub or_default : ℤ → ℕ → ℤ
or_default x standard = if ltb_ℤ (pos 0) x then x else pos standard

-- The options with their defaults filled in.
unfoldable pub with_defaults : ManagerOptions → ManagerOptions
with_defaults opts = record opts {
  buffer_size = or_default opts.buffer_size 256;
  stale_timeout = or_default opts.stale_timeout (90 * second);
  scrape_interval = or_default opts.scrape_interval (10 * second);
}

module _ {Adapter Data : Type 0} (default_adapter : Adapter) (new_adapter : Text → Adapter) where
  -- The new Manager's fields, behind resolveAdapter.
  unfoldable pub build :
      ManagerOptions → Result AdapterError Adapter → Result ManagerError (Manager Adapter Data)
  build opts (err e) = err (bad_adapter e)
  build opts (ok adapter) = ok (record {
    batteries = opts.batteries;
    scrape_interval = opts.scrape_interval;
    scan_timeout = opts.scan_timeout;
    stale_timeout = opts.stale_timeout;
    adapter = adapter;
    queue = new_queue (pos_part opts.buffer_size);
  })

  unfoldable pub check_timeouts :
      Platform → ManagerOptions → Result ManagerError (Manager Adapter Data)
  unfolding build
  check_timeouts platform opts =
      if ltb_ℤ opts.scrape_interval opts.stale_timeout
      then build opts (resolve_adapter default_adapter new_adapter platform opts.adapter_name)
      else err (stale_not_above_scrape opts.stale_timeout opts.scrape_interval)

  unfoldable pub new_manager :
      Platform → ManagerOptions → Result ManagerError (Manager Adapter Data)
  unfolding with_defaults check_timeouts
  new_manager platform opts = elim opts.batteries [
    | [] ↦ err no_batteries_configured
    | _ ↦ check_timeouts platform (with_defaults opts)
  ]

-- What Run starts: for each battery a supervisor, with the address that was resolved, if any.
module _ {Address : Type 0} where
  unfoldable pub supervisors : List Battery → Map Address → List (Battery × Option Address)
  supervisors [] resolved = []
  supervisors (b ∷ bs) resolved = (b, lookup b.id resolved) ∷ supervisors bs resolved

  unfoldable pub run_starts :
      (Text → Option Address)
      → (List Text → Option (List (Discovered Address)))
      → (Map (List Text) → Map (List Text))
      → List Battery
      → Result ResolveError (List (Battery × Option Address))
  unfolding supervisors
  run_starts parse_address scan arrange batteries =
      resolve_addresses parse_address scan arrange batteries >>= λ resolved.
      ok (supervisors batteries resolved)
