-- ===== src/Registration.antt =====
-- How both packages' NewMetrics get their instruments from the OpenTelemetry meter, which returns
-- an instrument and an error or nil for a name and a description.
use litime_timescaledb_inser.Prelude.{List, [], ◌∷◌, Option, none, some, Result, ok, err, ◌>>=◌}
use litime_timescaledb_inser.Strings.{Text}

abbrev pub Create : Type 0 → Type 0 → Type 0
Create H E = Text → Text → H × Option E

module _ {H E : Type 0} where
  -- `if err != nil { return nil, err }`
  abbrev pub created : H × Option E → Result E H
  created (h, none) = ok h
  created (h, some e) = err e

  -- Every instrument, or the first error.
  unfoldable pub created_all : List (H × Option E) → Result E (List H)
  created_all [] = ok []
  created_all (p ∷ ps) = created p >>= λ h. created_all ps >>= λ hs. ok (h ∷ hs)
