-- ===== src/Litime/Supervise/Waits.antt =====
-- How long superviseBattery waits between its attempts.
use litime_timescaledb_inser.Prelude.{All}
use litime_timescaledb_inser.Litime.Battery.{Battery}
use litime_timescaledb_inser.Litime.Metrics.{Metrics}
use litime_timescaledb_inser.Litime.Backoff.Bounds.{InBounds}
use litime_timescaledb_inser.Litime.Supervise.{Supervisor}

module _ {Address : Type 0} where
  pub record WaitsInBounds (s : Supervisor Address) : Type 0 where
    pub next : InBounds s.backoff
    pub all : All InBounds s.waits
