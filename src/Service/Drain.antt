-- ===== src/Service/Drain.antt =====
-- What the loops that write the readings leave in the metrics.
use litime_timescaledb_inser.Prelude.{
  ℕ, ◌+◌, ◌≡◌, ◌≢◌, Bool, true, false, List, [], ◌∷◌, none, if◌then◌else◌, arith, ◌∙◌,
}
use litime_timescaledb_inser.Strings.{Text, text_eq}
use litime_timescaledb_inser.Telemetry.{measure-reported, total-measure}
use litime_timescaledb_inser.Litime.Metrics as LitimeMetrics
use litime_timescaledb_inser.Litime.Queue as Queue
use litime_timescaledb_inser.Timescale.{Value, Statement, BatteryData, insert_litime}
use litime_timescaledb_inser.Service.{insert, drain}

-- How many of the readings are of a battery.
abbrev pub of_battery : {Data : Type 0} → Text → List (Queue.Reading Data) → ℕ
of_battery id [] = 0
of_battery id (r ∷ rs) = (if text_eq r.battery_id id then 1 else 0) + of_battery id rs

-- The inserts tried for a battery.
abbrev pub tried : Text → LitimeMetrics.Metrics → ℕ
tried id m =
    LitimeMetrics.counted LitimeMetrics.inserts id m
    + LitimeMetrics.counted LitimeMetrics.insert_errors id m

-- An insert is counted once, as done or as failed.
pub record_insert-tried :
    (m : LitimeMetrics.Metrics) (j id : Text) (failed : Bool)
    → m ≢ none
    → (LitimeMetrics.record_insert m j failed ≢ none)
      × (tried id (LitimeMetrics.record_insert m j failed)
          ≡ tried id m + (if text_eq j id then 1 else 0))
unfolding LitimeMetrics.record_insert
record_insert-tried m j id true h = (
  measure-reported m LitimeMetrics.insert_errors 1 j h,
  omega (
    arith,
    total-measure LitimeMetrics.same LitimeMetrics.inserts id m LitimeMetrics.insert_errors 1 j h,
    total-measure LitimeMetrics.same LitimeMetrics.insert_errors id m LitimeMetrics.insert_errors 1
        j h,
  ),
)
record_insert-tried m j id false h = (
  measure-reported m LitimeMetrics.inserts 1 j h,
  omega (
    arith,
    total-measure LitimeMetrics.same LitimeMetrics.inserts id m LitimeMetrics.inserts 1 j h,
    total-measure LitimeMetrics.same LitimeMetrics.insert_errors id m LitimeMetrics.inserts 1 j h,
  ),
)

module _ {F D Data : Type 0} (exec : D → Statement → List (Value F) → D × Bool)
    (fields : BatteryData F Data) where
  -- The loop of main counts each reading once, under its battery, whether or not its insert failed,
  -- if the metrics are not nil.
  pub drain_counts :
      (readings : List (Queue.Reading Data)) (db : D) (m : LitimeMetrics.Metrics) (id : Text)
      → m ≢ none
      → tried id (drain (insert exec fields) readings (db, m)).1
        ≡ tried id m + of_battery id readings
  unfolding drain insert
  drain_counts [] db m id h = omega arith
  drain_counts (r ∷ rs) db m id h =
      let done = insert_litime exec fields db r.battery_id r.observed_at r.data_of in
      let (k, one) = record_insert-tried m r.battery_id id done.1 h in
      drain_counts rs done.0 (LitimeMetrics.record_insert m r.battery_id done.1) id k
      ∙ omega (arith, one)
