-- ===== src/Victron/Metrics/Setup.antt =====
-- internal/victron/metrics.go: NewMetrics. The instruments' type is an argument.
use litime_timescaledb_inser.Prelude.{
  List, [], ◌∷◌, Option, none, some, Result, ok, err, ◌>>=◌, ◌≡◌, refl,
}
use litime_timescaledb_inser.Strings.{Text, codes}
use litime_timescaledb_inser.Registration.{Create, created, created_all}
mod Tests

pub record Instruments (H : Type 0) : Type 0 where
  pub readings : H
  pub missed : H
  pub unsupported : H
  pub decrypt_failures : H
  pub decode_failures : H
  pub scan_failures : H
  pub dropped : H
  pub inserts : H
  pub insert_errors : H

-- The instruments in the order of the fields.
abbrev pub in_order : {H : Type 0} → Instruments H → List H
in_order m =
    m.readings ∷ m.missed ∷ m.unsupported ∷ m.decrypt_failures ∷ m.decode_failures ∷ m.scan_failures
    ∷ m.dropped ∷ m.inserts ∷ m.insert_errors ∷ []

module _ {H E : Type 0} where
  -- The closure `counter`: the variable err keeps the first error.
  unfoldable pub counter : Option E → H × Option E → H × Option E
  counter none (c, c_err) = (c, c_err)
  counter (some e) (c, c_err) = (c, some e)

  -- The final check of err.
  abbrev checked : Option E → Instruments H → Result E (Instruments H)
  checked none m = ok m
  checked (some e) m = err e

  -- The calls of the meter, in the order of the fields.
  abbrev pub calls : Create H E → List (H × Option E)
  calls int64_counter =
      int64_counter (codes "victron.readings")
        (codes "Advertisements decoded from a Victron device")
      ∷ int64_counter (codes "victron.missed")
          (codes "Scans that produced no advertisement for a configured device")
      ∷ int64_counter (codes "victron.unsupported_records")
          (codes "Advertisements from a record type this build cannot decode")
      ∷ int64_counter (codes "victron.decrypt_failures")
          (codes "Advertisements that could not be decrypted")
      ∷ int64_counter (codes "victron.decode_failures")
          (codes "Advertisements that decrypted but could not be parsed")
      ∷ int64_counter (codes "victron.scan_failures") (codes "Scans that failed outright")
      ∷ int64_counter (codes "victron.readings_dropped")
          (codes "Readings discarded because the write queue was full")
      ∷ int64_counter (codes "victron.inserts") (codes "Readings written to the database")
      ∷ int64_counter (codes "victron.insert_errors")
          (codes "Readings that failed to be written to the database")
      ∷ []

  -- The literal of the struct: each call's pair goes through the closure, with err as it stands.
  unfoldable pub gather :
      (readings missed unsupported decrypt_failures decode_failures : H × Option E)
      (scan_failures dropped inserts insert_errors : H × Option E)
      → Result E (Instruments H)
  unfolding counter
  gather p1 p2 p3 p4 p5 p6 p7 p8 p9 =
      let readings = counter none p1 in
      let missed = counter readings.1 p2 in
      let unsupported = counter missed.1 p3 in
      let decrypt_failures = counter unsupported.1 p4 in
      let decode_failures = counter decrypt_failures.1 p5 in
      let scan_failures = counter decode_failures.1 p6 in
      let dropped = counter scan_failures.1 p7 in
      let inserts = counter dropped.1 p8 in
      let insert_errors = counter inserts.1 p9 in
      checked insert_errors.1 (record {
        readings = readings.0;
        missed = missed.0;
        unsupported = unsupported.0;
        decrypt_failures = decrypt_failures.0;
        decode_failures = decode_failures.0;
        scan_failures = scan_failures.0;
        dropped = dropped.0;
        inserts = inserts.0;
        insert_errors = insert_errors.0;
      })

  unfoldable pub new_metrics : Create H E → Result E (Instruments H)
  unfolding gather
  new_metrics int64_counter =
      gather
        (int64_counter (codes "victron.readings")
          (codes "Advertisements decoded from a Victron device"))
        (int64_counter (codes "victron.missed")
          (codes "Scans that produced no advertisement for a configured device"))
        (int64_counter (codes "victron.unsupported_records")
          (codes "Advertisements from a record type this build cannot decode"))
        (int64_counter (codes "victron.decrypt_failures")
          (codes "Advertisements that could not be decrypted"))
        (int64_counter (codes "victron.decode_failures")
          (codes "Advertisements that decrypted but could not be parsed"))
        (int64_counter (codes "victron.scan_failures") (codes "Scans that failed outright"))
        (int64_counter (codes "victron.readings_dropped")
          (codes "Readings discarded because the write queue was full"))
        (int64_counter (codes "victron.inserts") (codes "Readings written to the database"))
        (int64_counter (codes "victron.insert_errors")
          (codes "Readings that failed to be written to the database"))

  gather_lem :
      (p1 p2 p3 p4 p5 p6 p7 p8 p9 : H × Option E)
      → (gather p1 p2 p3 p4 p5 p6 p7 p8 p9 >>= λ m. ok (in_order m))
        ≡ created_all (p1 ∷ p2 ∷ p3 ∷ p4 ∷ p5 ∷ p6 ∷ p7 ∷ p8 ∷ p9 ∷ [])
  unfolding gather counter created_all
  gather_lem (h1, some e) (h2, e2) (h3, e3) (h4, e4) (h5, e5) (h6, e6) (h7, e7) (h8, e8) (h9, e9) =
      refl
  gather_lem (h1, none) (h2, some e) (h3, e3) (h4, e4) (h5, e5) (h6, e6) (h7, e7) (h8, e8)
        (h9, e9) =
      refl
  gather_lem (h1, none) (h2, none) (h3, some e) (h4, e4) (h5, e5) (h6, e6) (h7, e7) (h8, e8)
        (h9, e9) =
      refl
  gather_lem (h1, none) (h2, none) (h3, none) (h4, some e) (h5, e5) (h6, e6) (h7, e7) (h8, e8)
        (h9, e9) =
      refl
  gather_lem (h1, none) (h2, none) (h3, none) (h4, none) (h5, some e) (h6, e6) (h7, e7) (h8, e8)
        (h9, e9) =
      refl
  gather_lem (h1, none) (h2, none) (h3, none) (h4, none) (h5, none) (h6, some e) (h7, e7) (h8, e8)
        (h9, e9) =
      refl
  gather_lem (h1, none) (h2, none) (h3, none) (h4, none) (h5, none) (h6, none) (h7, some e) (h8, e8)
        (h9, e9) =
      refl
  gather_lem (h1, none) (h2, none) (h3, none) (h4, none) (h5, none) (h6, none) (h7, none)
        (h8, some e) (h9, e9) =
      refl
  gather_lem (h1, none) (h2, none) (h3, none) (h4, none) (h5, none) (h6, none) (h7, none) (h8, none)
        (h9, some e) =
      refl
  gather_lem (h1, none) (h2, none) (h3, none) (h4, none) (h5, none) (h6, none) (h7, none) (h8, none)
        (h9, none) =
      refl

  -- Although it goes on after an error, NewMetrics returns what a stop at the first error would: the
  -- first error in the order of the fields, or, if the meter gives no error, all nine instruments,
  -- each in its own field.
  pub new_metrics_lem :
      (int64_counter : Create H E)
      → (new_metrics int64_counter >>= λ m. ok (in_order m)) ≡ created_all (calls int64_counter)
  unfolding new_metrics
  new_metrics_lem int64_counter = gather_lem _ _ _ _ _ _ _ _ _
