-- ===== src/Program/Exits.antt =====
-- How the process ends.
use litime_timescaledb_inser.Prelude.{◌≡◌, ◌⊎◌, ◌++◌}
use litime_timescaledb_inser.Effects.{Frame}
use litime_timescaledb_inser.Victron.Collector.{Library}
use litime_timescaledb_inser.Service.Loops.{Store}
use litime_timescaledb_inser.Program.{World, Exit}
use litime_timescaledb_inser.Program.Rules.{IsEarly, all_started, without_collector, all_ended}

-- The frame where main serves, without and with a collector.
abbrev IsServing : Frame → Type 0
IsServing t =
    (t ≡ record { effects = without_collector; deferred = all_ended })
    ⊎ (t ≡ record { effects = all_started; deferred = all_ended })

module _ {lib : Library} {E Float Address Adapter Data PoolConfig Pool H F D : Type 0}
    (w : World lib E Float Address Adapter Data PoolConfig Pool H)
    (store : Store lib F D Data) where
  -- Code 0 and everything is released, or code 1 and nothing is.
  abbrev pub IsClean : Exit D → Type 0
  IsClean x =
      ((x.code ≡ 0)
        × ((x.effects ≡ without_collector ++ all_ended) ⊎ (x.effects ≡ all_started ++ all_ended)))
      ⊎ ((x.code ≡ 1) × IsEarly x.effects)
