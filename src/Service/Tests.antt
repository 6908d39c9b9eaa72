-- ===== src/Service/Tests.antt =====
-- The theorems on the loops that write the readings, at a database that counts its statements and
-- fails the second one.
use litime_timescaledb_inser.Prelude.{
  ℕ, suc, ◌+◌, ◌≡◌, refl, pos, Bool, false, List, [], ◌∷◌, Option, none, some, ok, ◌==◌, arith,
}
use litime_timescaledb_inser.Strings.{Text, codes}
use litime_timescaledb_inser.Litime.Queue as Queue
use litime_timescaledb_inser.Victron.Device.{Device}
use litime_timescaledb_inser.Victron.Collector.{Bytes, Discovered, State}
use litime_timescaledb_inser.Timescale.{Value, Statement}
use litime_timescaledb_inser.Service.{insert, insert_reading, drain}
use litime_timescaledb_inser.Service.Sample.{lib, fields, payloads}
use litime_timescaledb_inser.Service.Drain as Batteries
use litime_timescaledb_inser.Service.Payload as Devices
use litime_timescaledb_inser.Service.Pipeline as Pipeline
use litime_timescaledb_inser.Service.Batteries as Notified
use litime_timescaledb_inser.Service.Batteries.Complete.{notifications_complete}
use litime_timescaledb_inser.Litime.Metrics as LitimeMetrics

abbrev exec : ℕ → Statement → List (Value ℕ) → ℕ × Bool
exec n s args = (suc n, n == 1)

abbrev reading : Text → ℕ → Queue.Reading ℕ
reading id n = record { battery_id = id; observed_at = pos n; data_of = n }

abbrev readings : List (Queue.Reading ℕ)
readings = reading (codes "attic") 1 ∷ reading (codes "garage") 2 ∷ reading (codes "attic") 3 ∷ []

abbrev solar : Device Bytes
solar = record { id = codes "solar"; address = codes "A:1"; key = 1 ∷ [] }

abbrev advert : Discovered Text
advert = record { address = codes "A:1"; manufacturer_data = λ c. some (1 ∷ []) }

abbrev fresh : State lib
fresh = record {
  readings = record { capacity = 1; items = []; closed = false };
  closed = false;
  metrics = some [];
}

-- Two advertisements, a receive between them, and the end, behind which the second is received.
abbrev ops : List (Pipeline.Op Text)
ops =
    Pipeline.handled solar (pos 5) advert
    ∷ Pipeline.received
    ∷ Pipeline.handled solar (pos 6) advert
    ∷ Pipeline.ended
    ∷ Pipeline.received
    ∷ []

pipeline_complete_example :
    (h : Pipeline.History lib) × (Pipeline.run (record { state = fresh; taken = [] }) ops ≡ ok h)
    × ((id : Text)
        → Devices.tried id
              (drain (insert_reading exec payloads) (Pipeline.readings_of h) (0, some [])).1
            + Pipeline.counted id fresh.metrics
          ≡ Devices.tried id (some []) + Pipeline.counted id h.state.metrics)
pipeline_complete_example =
    Pipeline.pipeline_complete exec lib payloads fresh ops 0 (some []) refl (λ h. cc) (λ h. cc) refl
      (ground arith)

-- A notification parses if it is not empty; the queue has room for one reading.
abbrev parse : List ℕ → Option ℕ
parse [] = none
parse (b ∷ bs) = some b

abbrev unused : Notified.History ℕ
unused = record {
  queue = record { readings = record { capacity = 1; items = []; closed = false }; closed = false };
  metrics = some [];
  taken = [];
}

abbrev notified : Text → List ℕ → Notified.Op
notified id bytes =
    Notified.notified id (pos 0) (record { bytes = bytes; seen_at = pos 1; observed_at = pos 2 })

-- One reading is stored, one is dropped, one comes after the close, and one notification fails.
abbrev notified_ops : List Notified.Op
notified_ops =
    notified (codes "attic") (1 ∷ [])
    ∷ notified (codes "attic") []
    ∷ notified (codes "garage") (2 ∷ [])
    ∷ Notified.received
    ∷ Notified.ended
    ∷ notified (codes "attic") (3 ∷ [])
    ∷ []

notifications_complete_example :
    (g : Notified.History ℕ) × (Notified.run parse unused notified_ops ≡ ok g)
    × ((id : Text)
        → LitimeMetrics.counted LitimeMetrics.notifications id g.metrics
            + LitimeMetrics.counted LitimeMetrics.dropped id unused.metrics
            + Batteries.tried id (some [])
          ≡ LitimeMetrics.counted LitimeMetrics.notifications id unused.metrics
            + Batteries.tried id
                (drain (insert exec fields) (Notified.readings_of g) (0, some [])).1
            + LitimeMetrics.counted LitimeMetrics.dropped id g.metrics
            + Notified.late parse id unused.queue.closed notified_ops)
notifications_complete_example =
    notifications_complete exec fields parse unused notified_ops 0 (some []) refl (λ h. cc)
      (λ h. cc) refl (ground arith)
