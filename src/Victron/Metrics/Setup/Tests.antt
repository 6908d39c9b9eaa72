-- ===== src/Victron/Metrics/Setup/Tests.antt =====
-- NewMetrics of the Victron package, with meters that give a number for a name.
use litime_timescaledb_inser.Prelude.{
  ℕ, ◌≡◌, refl, none, some, ok, err, ◌>>=◌, if◌then◌else◌, length,
}
use litime_timescaledb_inser.Strings.{Text, codes, text_eq}
use litime_timescaledb_inser.Registration.{Create, created_all}
use litime_timescaledb_inser.Victron.Metrics.Setup.{new_metrics, in_order, calls, new_metrics_lem}

-- A meter that refuses two names.
abbrev refusing : Create ℕ Text
refusing name description =
    if text_eq name (codes "victron.missed")
    then (1, some name)
    else if text_eq name (codes "victron.inserts")
    then (2, some name)
    else (length name, none)

first_refused : new_metrics refusing ≡ err (codes "victron.missed")
unfolding new_metrics text_eq
first_refused = refl

new_metrics_lem_example :
    (new_metrics refusing >>= λ m. ok (in_order m)) ≡ created_all (calls refusing)
new_metrics_lem_example = new_metrics_lem refusing
