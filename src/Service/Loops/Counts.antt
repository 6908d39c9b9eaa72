-- ===== src/Service/Loops/Counts.antt =====
-- What the two loops count, however they take turns.
use litime_timescaledb_inser.Prelude.{
  ◌+◌, ◌≡◌, ◌≢◌, refl, ap, sym, ◌∙◌, Bool, true, false, List, [], ◌∷◌, ◌++◌, none, All, arith,
}
use litime_timescaledb_inser.Strings.{Text}
use litime_timescaledb_inser.Litime.Queue as Queue
use litime_timescaledb_inser.Victron.Collector.{Library, LibReading}
use litime_timescaledb_inser.Timescale.{insert_litime}
use litime_timescaledb_inser.Service.{insert, drain}
use litime_timescaledb_inser.Service.Drain as Batteries
use litime_timescaledb_inser.Service.Payload as Devices
use litime_timescaledb_inser.Service.Loops.{Store, Written, write, write_device, write_all}

module _ {lib : Library} {F D Data : Type 0} (store : Store lib F D Data) where
  -- From s to t one insert is counted, as done or as failed, for each of the readings, under its
  -- battery or device.
  pub record Counts (readings : List (Queue.Reading Data)) (device_readings : List (LibReading lib))
      (s t : Written D) : Type 0 where
    pub reported : (t.batteries ≢ none) × (t.devices ≢ none)
    pub for_batteries :
        (id : Text)
        → Batteries.tried id t.batteries
          ≡ Batteries.tried id s.batteries + Batteries.of_battery id readings
    pub for_devices :
        (id : Text)
        → Devices.tried id t.devices
          ≡ Devices.tried id s.devices + Devices.of_device id device_readings

  abbrev IsReported : Written D → Type 0
  IsReported s = (s.batteries ≢ none) × (s.devices ≢ none)

  none-Counts : (s : Written D) → IsReported s → Counts [] [] s s
  none-Counts s h = record {
    reported = h;
    for_batteries = λ id. omega arith;
    for_devices = λ id. omega arith;
  }

  write-IsReported :
      (s : Written D) (r : Queue.Reading Data) → IsReported s → IsReported (write store s r)
  unfolding insert
  write-IsReported s r h =
      let done = insert_litime store.exec store.fields s.db r.battery_id r.observed_at r.data_of in
      ((Batteries.record_insert-tried s.batteries r.battery_id [] done.1 h.0).0, h.1)

  write_device-IsReported :
      (s : Written D) (d : LibReading lib)
      → IsReported s
      → Devices.IsFilled lib d
      → IsReported (write_device store s d)
  write_device-IsReported s d h f = (
    h.0,
    (Devices.insert_reading-Tried store.exec lib store.payloads d s.db s.devices [] h.1 f).reported,
  )

  write-Counts :
      (r : Queue.Reading Data) (rs : List (Queue.Reading Data)) (ds : List (LibReading lib))
      (s t : Written D)
      → IsReported s
      → Counts rs ds (write store s r) t
      → Counts (r ∷ rs) ds s t
  unfolding insert
  write-Counts r rs ds s t h k =
      let done = insert_litime store.exec store.fields s.db r.battery_id r.observed_at r.data_of in
      record {
        reported = k.reported;
        for_batteries = λ id.
            k.for_batteries id
            ∙ omega
                (arith, (Batteries.record_insert-tried s.batteries r.battery_id id done.1 h.0).1);
        for_devices = k.for_devices;
      }

  write_device-Counts :
      (d : LibReading lib) (rs : List (Queue.Reading Data)) (ds : List (LibReading lib))
      (s t : Written D)
      → IsReported s
      → Devices.IsFilled lib d
      → Counts rs ds (write_device store s d) t
      → Counts rs (d ∷ ds) s t
  write_device-Counts d rs ds s t h f k =
      let one = Devices.insert_reading-Tried store.exec lib store.payloads d s.db s.devices in
      record {
        reported = k.reported;
        for_batteries = k.for_batteries;
        for_devices = λ id. k.for_devices id ∙ omega (arith, (one id h.1 f).counted_once);
      }

  drain-Counts :
      (rs : List (Queue.Reading Data)) (s : Written D)
      → IsReported s
      → Counts rs [] s (drain (write store) rs s)
  unfolding drain
  drain-Counts [] s h = none-Counts s h
  drain-Counts (r ∷ rs) s h =
      write-Counts r rs [] s (drain (write store) rs (write store s r)) h
        (drain-Counts rs (write store s r) (write-IsReported s r h))

  drain_devices-Counts :
      (ds : List (LibReading lib)) (s : Written D)
      → IsReported s
      → All (Devices.IsFilled lib) ds
      → Counts [] ds s (drain (write_device store) ds s)
  unfolding drain
  drain_devices-Counts [] s h f = none-Counts s h
  drain_devices-Counts (d ∷ ds) s h (f, fs) =
      write_device-Counts d [] ds s (drain (write_device store) ds (write_device store s d)) h f
        (drain_devices-Counts ds (write_device store s d) (write_device-IsReported s d h f) fs)

  -- Main's loop has written all its readings, and the other one the first of its own.
  pub record Shared (rs : List (Queue.Reading Data)) (ds : List (LibReading lib)) (s : Written D)
      (r : Written D × List (LibReading lib)) : Type 0 where
    pub done : List (LibReading lib)
    pub split : ds ≡ done ++ r.1
    pub counts : Counts rs done s r.0
    pub filled : All (Devices.IsFilled lib) r.1

  pub write_all-Shared :
      (turns : List Bool) (rs : List (Queue.Reading Data)) (ds : List (LibReading lib))
      (s : Written D)
      → IsReported s
      → All (Devices.IsFilled lib) ds
      → Shared rs ds s (write_all store turns rs ds s)
  unfolding write_all
  write_all-Shared [] rs ds s h f = record {
    done = [];
    split = refl;
    counts = drain-Counts rs s h;
    filled = f;
  }
  write_all-Shared (true ∷ turns) [] ds s h f = write_all-Shared turns [] ds s h f
  write_all-Shared (true ∷ turns) (r ∷ rs) ds s h f =
      let next = write_all store turns rs ds (write store s r) in
      let l = write_all-Shared turns rs ds (write store s r) (write-IsReported s r h) f in
      record {
        done = l.done;
        split = l.split;
        counts = write-Counts r rs l.done s next.0 h l.counts;
        filled = l.filled;
      }
  write_all-Shared (false ∷ turns) rs [] s h f = write_all-Shared turns rs [] s h f
  write_all-Shared (false ∷ turns) rs (d ∷ ds) s h (f, fs) =
      let next = write_all store turns rs ds (write_device store s d) in
      let l =
        write_all-Shared turns rs ds (write_device store s d) (write_device-IsReported s d h f)
          fs in
      record {
        done = d ∷ l.done;
        split = ap (◌∷◌ d) l.split;
        counts = write_device-Counts d rs l.done s next.0 h f l.counts;
        filled = l.filled;
      }

  of_device-append :
      (id : Text) (xs ys : List (LibReading lib))
      → Devices.of_device id (xs ++ ys) ≡ Devices.of_device id xs + Devices.of_device id ys
  of_device-append id [] ys = omega arith
  of_device-append id (x ∷ xs) ys = omega (arith, of_device-append id xs ys)

  -- The other loop goes on to its end.
  pub Shared-ended :
      (rs : List (Queue.Reading Data)) (ds : List (LibReading lib)) (s : Written D)
      (r : Written D × List (LibReading lib))
      → Shared rs ds s r
      → Counts rs ds s (drain (write_device store) r.1 r.0)
  Shared-ended rs ds s (t, rest) k =
      let l = drain_devices-Counts rest t k.counts.reported k.filled in
      record {
        reported = l.reported;
        for_batteries = λ id. omega (arith, l.for_batteries id, k.counts.for_batteries id);
        for_devices = λ id.
            l.for_devices id
            ∙ (omega (arith, k.counts.for_devices id, of_device-append id k.done rest)
                ∙ ap (λ xs. Devices.tried id s.devices + Devices.of_device id xs) (sym k.split));
      }
