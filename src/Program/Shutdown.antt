-- ===== src/Program/Shutdown.antt =====
-- How main ends when every call that it makes succeeds.
use litime_timescaledb_inser.Prelude.{
  ◌*◌, ◌≡◌, ◌≢◌, refl, ap, ◌∙◌, ◌⊎◌, inl, inr, pos, List, [], ◌∷◌, Option, none, some, Result, ok,
  err, length, All,
}
use litime_timescaledb_inser.Durations.{second}
use litime_timescaledb_inser.Effects.{Frame}
use litime_timescaledb_inser.Litime.Battery.{Battery}
use litime_timescaledb_inser.Litime.Queue as Queue
use litime_timescaledb_inser.Litime.Manager.{or_default}
use litime_timescaledb_inser.Config.{Config}
use litime_timescaledb_inser.Service.Payload.{IsFilled}
use litime_timescaledb_inser.Victron.Device.{Device}
use litime_timescaledb_inser.Victron.Collector.{Library, Bytes, LibReading}
use litime_timescaledb_inser.Victron.Collector.Scan.{Collector}
use litime_timescaledb_inser.Service.Loops.{Store}
use litime_timescaledb_inser.Program.{
  World, Fatal, Started, Exit, start_up, victron_outcome, serve, end, main,
}
use litime_timescaledb_inser.Program.Reaches.{Reaches}
use litime_timescaledb_inser.Program.Accounts.{Inserted, outcome-IsFilled, serve-Served}
use litime_timescaledb_inser.Program.Succeeds.{Answers, Serves, start_up-Reaches}

module _ {lib : Library} {E Float Address Adapter Data PoolConfig Pool H F D : Type 0}
    (w : World lib E Float Address Adapter Data PoolConfig Pool H)
    (store : Store lib F D Data) where
  serve-succeeds :
      (t : Frame) (m : List (Queue.Reading Data) × Option E) (v : List (LibReading lib) × Option E)
      → m.1 ≡ none
      → v.1 ≡ none
      → All (IsFilled lib) v.0
      → let x = serve w store t m v in (x.code ≡ 0) × Inserted w store m.0 v.0 x
  serve-succeeds t m v p q f = elim (serve-Served w store t m v f) [
    | inl (_, _, code, inserted) ↦ (code, inserted)
    | inr (inl (_, (e, failed), _, _)) ↦ absurd (cc (failed, q))
    | inr (inr ((e, failed), _, _)) ↦ absurd (cc (failed, p))
  ]

  module _ (c : Config Float) (b : Battery) (bs : List Battery) (ds : List (Device Bytes))
      (adapter : Adapter) (a : Answers w c b bs ds adapter) where
    victron-succeeds :
        (o : Option (Collector Adapter (LibReading lib))) → (victron_outcome w o).1 ≡ none
    victron-succeeds none = refl
    victron-succeeds (some collector) = a.collector_runs collector

    -- The manager and the collector with the default times.
    pub record IsStandard (started : Started lib Adapter Data Pool) : Type 0 where
      pub manages :
          (started.manager.batteries ≡ b ∷ bs)
          × (started.manager.adapter ≡ adapter)
          × (started.manager.scrape_interval ≡ pos (10 * second))
          × (started.manager.stale_timeout ≡ pos (90 * second))
          × (started.manager.scan_timeout ≡ c.scan_timeout)
      pub watches :
          ((ds ≡ []) × (started.collector ≡ none))
          ⊎ ((ds ≢ [])
              × ((k : Collector Adapter (LibReading lib)) × (started.collector ≡ some k)
                  × (k.devices ≡ ds)
                  × (k.adapter ≡ adapter)
                  × (k.scan_interval ≡ pos (60 * second))
                  × (k.scan_duration ≡ pos (5 * second))))
      pub reported : started.victron_devices ≡ length ds

    -- The process ends well, with what it served with.
    abbrev pub IsDone : Exit D → Type 0
    IsDone x =
        (started : Started lib Adapter Data Pool) × IsStandard started
        × (x.code ≡ 0)
        × Inserted w store (w.run_manager started.manager).0 (victron_outcome w started.collector).0
            x

    Serves-IsStandard :
        (started : Started lib Adapter Data Pool) (t : Frame)
        → Serves w c b bs ds adapter a started t
        → IsStandard started
    Serves-IsStandard started t (m, same, watched, n) = record {
      manages = (
        m.same,
        same,
        m.scrape_interval ∙ ap (λ x. or_default x (10 * second)) a.times.scrape_interval,
        m.stale_timeout ∙ ap (λ x. or_default x (90 * second)) a.times.stale_timeout,
        m.scan_timeout,
      );
      watches = elim watched [
        | inl none_made ↦ inl none_made
        | inr (some_listed, k, is, f) ↦ inr (
          some_listed,
          (
            k,
            is,
            f.same,
            f.shared ∙ same,
            f.scan_interval ∙ ap (λ x. or_default x (60 * second)) a.times.victron_scan_interval,
            f.scan_duration ∙ ap (λ x. or_default x (5 * second)) a.times.victron_scan_duration,
          ),
        )
      ];
      reported = n;
    }

    end-IsDone :
        (r : Frame × Result (Fatal E) (Started lib Adapter Data Pool))
        → Reaches (Serves w c b bs ds adapter a) r
        → IsDone (end w store r)
    unfolding end Reaches
    end-IsDone (t, err fatal) h = absurd h
    end-IsDone (t, ok started) s =
        let (code, inserted) =
          serve-succeeds t (w.run_manager started.manager) (victron_outcome w started.collector)
            (a.manager_runs started.manager) (victron-succeeds started.collector)
            (outcome-IsFilled w a.collector_fills started.collector) in
        (started, Serves-IsStandard started t s, code, inserted)

  -- With the default times and log level, at least one battery and any devices, main exits with 0
  -- if the calls to the outside succeed, neither Run fails and each device reading has exactly the
  -- payload of its record type: the defaults pass every check that stands in between. It has served
  -- with a manager of these batteries that polls every 10 s and gives up after 90 s and, exactly if
  -- there is a device, with a collector of these devices that scans for 5 s every 60 s on the same
  -- adapter. One insert is counted, as done or as failed, for each reading that the two queues gave.
  pub main_succeeds :
      (c : Config Float) (b : Battery) (bs : List Battery) (ds : List (Device Bytes))
      (adapter : Adapter) (a : Answers w c b bs ds adapter)
      → IsDone c b bs ds adapter a (main w store)
  unfolding main
  main_succeeds c b bs ds adapter a =
      end-IsDone c b bs ds adapter a (start_up w (record { effects = []; deferred = [] }))
        (start_up-Reaches w c b bs ds adapter a)
