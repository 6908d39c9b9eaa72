-- ===== src/Service/Batteries/Complete.antt =====
-- From a notification to its insert.
use litime_timescaledb_inser.Prelude.{
  ℕ, ◌+◌, ◌≤◌, ◌≡◌, ◌≢◌, refl, ap, ◌∙◌, Bool, true, List, [], ◌∷◌, Option, none, ok, ◌>>=◌,
  if◌then◌else◌, arith,
}
use litime_timescaledb_inser.Strings.{Text, text_eq}
use litime_timescaledb_inser.Litime.Metrics.{Metrics, counted, notifications, dropped}
use litime_timescaledb_inser.Timescale.{Value, Statement, BatteryData}
use litime_timescaledb_inser.Service.{insert, drain}
use litime_timescaledb_inser.Service.Drain.{of_battery, tried, drain_counts}
use litime_timescaledb_inser.Service.Batteries.{
  Op, notified, received, ended, ends, History, is_late, readings_of, step, run, parses, late,
  IsSound,
}
use litime_timescaledb_inser.Service.Batteries.Moves.{
  Balanced, Moved, notified-Moved, received-Moved, ended-Moved,
}

module _ {Data : Type 0} (parse : List ℕ → Option Data) where
  abbrev closes : Bool → ℕ
  closes closed = if closed then 1 else 0

  -- What a history leads to, with so many notifications refused for good.
  record Whole (h : History Data) (os : List Op) (missed : Text → ℕ) : Type 0 where
    final : History Data
    is_ok : run parse h os ≡ ok final
    sound : IsSound final
    balanced : (id : Text) → Balanced parse id h final (missed id)

  -- One step parse of a history, and then the rest of it.
  then-Whole :
      (h : History Data) (o : Op) (os : List Op) (closed : Bool) (missed more : Text → ℕ)
      (m : Moved parse h (step parse h o) closed missed) (all : Text → ℕ)
      → ((id : Text) → missed id + more id ≡ all id)
      → Whole m.after os more
      → Whole h (o ∷ os) all
  unfolding run
  then-Whole h o os closed missed more m all sums n = record {
    final = n.final;
    is_ok = ap (λ r. r >>= λ g. run parse g os) m.is_ok ∙ n.is_ok;
    sound = n.sound;
    balanced = λ id. omega (arith, m.balanced id, n.balanced id, sums id);
  }

  run-Whole :
      (os : List Op) (h : History Data) (closed : Bool)
      → IsSound h
      → h.queue.closed ≡ closed
      → ends os + closes closed ≤ 1
      → Whole h os (λ id. late parse id closed os)
  unfolding run
  run-Whole [] h closed v c k = record {
    final = h;
    is_ok = refl;
    sound = v;
    balanced = λ id. omega arith;
  }
  run-Whole (notified j last n ∷ os) h closed v c k =
      let m = notified-Moved parse h v j last n in
      let w = run-Whole os m.after closed m.sound (m.closed_now ∙ c) k in
      then-Whole h (notified j last n) os _ _ _ m _
        (λ id.
          ap (λ b. is_late b (parses parse n.bytes) (text_eq j id) + late parse id closed os) c)
        w
  run-Whole (received ∷ os) h closed v c k =
      let m = received-Moved parse h v in
      then-Whole h received os _ _ _ m _ (λ id. omega arith)
        (run-Whole os m.after closed m.sound (m.closed_now ∙ c) k)
  run-Whole (ended ∷ os) h closed v c k =
      let m = ended-Moved parse h v (ground arith) in
      then-Whole h ended os _ _ _ m _ (λ id. omega arith)
        (run-Whole os m.after true m.sound m.closed_now (ground arith))

module _ {F D Data : Type 0} (exec : D → Statement → List (Value F) → D × Bool)
    (fields : BatteryData F Data) (parse : List ℕ → Option Data) where
  -- From an empty queue, any interleaving of the batteries' notifications, receives by main's loop
  -- and at most one close (none if it is closed already) runs without a panic. When the loop has
  -- then inserted what it received and what still waits, the notifications that were counted for a
  -- battery are the inserts that were tried for it, those counted as dropped, and those that parsed
  -- behind the close: none is lost without a count before the close, and none is written twice.
  -- Conditions: the closed flag agrees with the channel, and the metrics are not nil.
  pub notifications_complete :
      (h : History Data) (os : List Op) (db : D) (m : Metrics)
      → h.queue.readings.closed ≡ h.queue.closed
      → h.metrics ≢ none
      → m ≢ none
      → readings_of h ≡ []
      → ends os + (if h.queue.closed then 1 else 0) ≤ 1
      → (g : History Data) × (run parse h os ≡ ok g)
        × ((id : Text)
            → counted notifications id g.metrics + counted dropped id h.metrics + tried id m
              ≡ counted notifications id h.metrics
                + tried id (drain (insert exec fields) (readings_of g) (db, m)).1
                + counted dropped id g.metrics
                + late parse id h.queue.closed os)
  notifications_complete h os db m agree reported w e k =
      let r =
        run-Whole parse os h h.queue.closed (record { agree = agree; reported = reported }) refl
          k in
      (
        r.final,
        r.is_ok,
        λ id. omega (
          arith,
          r.balanced id,
          ap (of_battery id) e,
          drain_counts exec fields (readings_of r.final) db m id w,
        ),
      )
