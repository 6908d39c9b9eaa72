-- ===== src/Litime/Manager/Run/Tests.antt =====
-- Run with a battery that cannot be reached until the context is cancelled. An adapter is its name,
-- and a reading a number.
use litime_timescaledb_inser.Prelude.{
  ℕ, ◌*◌, ◌≡◌, refl, inl, Bool, true, false, List, [], ◌∷◌, ◌++◌, Option, none, some, ok, pos,
}
use litime_timescaledb_inser.Strings.{Text, codes}
use litime_timescaledb_inser.Durations.{second}
use litime_timescaledb_inser.Litime.Battery.{Battery, match_name}
use litime_timescaledb_inser.Litime.Queue.{new_queue}
use litime_timescaledb_inser.Litime.Queue.Stream as Stream
use litime_timescaledb_inser.Litime.Supervise.{Round}
use litime_timescaledb_inser.Litime.Manager.{Manager, run_starts}
use litime_timescaledb_inser.Litime.Manager.Run.{gave, run}
use litime_timescaledb_inser.Litime.Manager.Run.Returns.{IsStopped, result_of, run_closes}

abbrev attic : Battery
attic = record { id = codes "attic"; match = match_name; value = codes "one" }

abbrev manager : Manager Text ℕ
manager = record {
  batteries = attic ∷ [];
  scrape_interval = pos (10 * second);
  scan_timeout = pos (30 * second);
  stale_timeout = pos (90 * second);
  adapter = codes "hci0";
  queue = new_queue 2;
}

abbrev no_address : Text → Option ℕ
no_address s = none

abbrev unreachable : Bool → Round ℕ
unreachable cancelled = record {
  over = cancelled;
  scan = λ names. some [];
  arrange = λ m. m;
  started = pos 0;
  connects = false;
  events = [];
  over_later = cancelled;
  slept = true;
}

abbrev world : Battery → List (Round ℕ)
world b = unreachable false ∷ unreachable true ∷ []

abbrev os : List (Stream.Op ℕ)
os = Stream.offer 4 ∷ Stream.offer 5 ∷ Stream.take ∷ []

stopped : IsStopped no_address manager (some []) world attic
stopped = record {
  before = unreachable false ∷ [];
  last = unreachable true;
  after = [];
  played = refl;
  ended = (inl refl, tt);
  stopped = inl refl;
}

run_closes_example :
    (h : Stream.History ℕ) × (run no_address manager (some []) world (λ names. some []) (λ m. m) os
      ≡ ok (h, gave (result_of (run_starts no_address (λ names. some []) (λ m. m) (attic ∷ [])))))
    × (h.queue.closed ≡ true)
    × (h.queue.readings.closed ≡ true)
    × (h.accepted ≡ h.taken ++ h.queue.readings.items)
run_closes_example =
    run_closes no_address manager (some []) world (λ names. some []) (λ m. m) 2 os refl refl
      (stopped, tt)
