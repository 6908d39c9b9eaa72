-- ===== src/Litime/Manager/Tests.antt =====
-- Runs of NewManager, and its theorem at concrete options. An adapter is its name.
use litime_timescaledb_inser.Prelude.{ℕ, ◌*◌, ◌≡◌, refl, [], ◌∷◌, ok, err, pos, negsuc}
use litime_timescaledb_inser.Strings.{Text, codes}
use litime_timescaledb_inser.Durations.{second}
use litime_timescaledb_inser.Litime.Battery.{match_name}
use litime_timescaledb_inser.Litime.Adapter.{linux, resolve_adapter}
use litime_timescaledb_inser.Litime.Queue.{new_queue}
use litime_timescaledb_inser.Litime.Manager.{
  ManagerOptions, Manager, stale_not_above_scrape, new_manager,
}
use litime_timescaledb_inser.Litime.Manager.Settings.{IsSound, new_manager-IsSound}

abbrev opts : ManagerOptions
opts = record {
  batteries = record { id = codes "attic"; match = match_name; value = codes "one" } ∷ [];
  scrape_interval = pos 0;
  scan_timeout = pos (30 * second);
  stale_timeout = negsuc 0;
  buffer_size = pos 4;
  adapter_name = codes "hci1";
}

abbrev manager : Manager Text ℕ
manager = record {
  batteries = opts.batteries;
  scrape_interval = pos (10 * second);
  scan_timeout = opts.scan_timeout;
  stale_timeout = pos (90 * second);
  adapter = codes "hci1";
  queue = new_queue 4;
}

builds : new_manager (codes "hci0") (λ name. name) linux opts ≡ ok manager
unfolding new_manager resolve_adapter
builds = refl

stale_too_small :
    new_manager {Data = ℕ}
      (codes "hci0")
      (λ name. name)
      linux
      (record opts { stale_timeout = pos (10 * second) })
    ≡ err (stale_not_above_scrape (pos (10 * second)) (pos (10 * second)))
unfolding new_manager
stale_too_small = refl

new_manager-IsSound_example : IsSound (codes "hci0") (λ name. name) opts manager
new_manager-IsSound_example =
    new_manager-IsSound (codes "hci0") (λ name. name) linux opts manager builds
