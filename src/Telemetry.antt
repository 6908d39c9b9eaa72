-- ===== src/Telemetry.antt =====
-- What the program does to its metrics, for both packages: the calls that reach the OpenTelemetry
-- instruments, oldest first. A nil *Metrics records nothing.
use litime_timescaledb_inser.Prelude.{
  ℕ, ◌+◌, Bool, ◌&&◌, List, [], ◌∷◌, ◌++◌, Option, none, some, if◌then◌else◌, ◌≡◌, ◌≢◌, refl, arith,
}
use litime_timescaledb_inser.Strings.{Text, text_eq}

-- One call: `instrument.Add(ctx, value, label)` or `instrument.Record(ctx, value, label)`.
pub record Measurement (I : Type 0) : Type 0 where
  pub instrument : I
  pub value : ℕ
  pub label : Text

-- A pointer to the metrics: nil, or the calls made so far.
abbrev pub Telemetry : Type 0 → Type 0
Telemetry I = Option (List (Measurement I))

module _ {I : Type 0} where
  -- A recorder's body, behind its test for a nil receiver.
  abbrev pub measure : Telemetry I → I → ℕ → Text → Telemetry I
  measure none i v l = none
  measure (some calls) i v l = some (calls ++ record { instrument = i; value = v; label = l } ∷ [])

module _ {I : Type 0} where
  -- A pointer that is not nil stays one.
  pub measure-reported :
      (m : Telemetry I) (i : I) (v : ℕ) (l : Text) → m ≢ none → measure m i v l ≢ none
  measure-reported none i v l h e = h refl
  measure-reported (some calls) i v l h e = cc

module _ {I : Type 0} (same : I → I → Bool) (i : I) (l : Text) where
  abbrev pub sum_of : List (Measurement I) → ℕ
  sum_of [] = 0
  sum_of (m ∷ ms) = (if same m.instrument i && text_eq m.label l then m.value else 0) + sum_of ms

  -- The value that a counter has for a label.
  abbrev pub total : Telemetry I → ℕ
  total none = 0
  total (some calls) = sum_of calls

  pub sum_of-append : (ms ns : List (Measurement I)) → sum_of (ms ++ ns) ≡ sum_of ms + sum_of ns
  sum_of-append [] ns = omega arith
  sum_of-append (m ∷ ms) ns = omega (arith, sum_of-append ms ns)

  -- A call adds its value to the counters of its instrument and label, and to no others.
  pub total-measure :
      (m : Telemetry I) (j : I) (v : ℕ) (k : Text)
      → m ≢ none
      → total (measure m j v k) ≡ total m + (if same j i && text_eq k l then v else 0)
  total-measure none j v k h = absurd (h refl)
  total-measure (some calls) j v k h =
      omega (arith, sum_of-append calls (record { instrument = j; value = v; label = k } ∷ []))
