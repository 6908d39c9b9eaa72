-- ===== src/Effects.antt =====
-- What main and the functions that it calls do outside their own memory, in order, and Go's defer:
-- a function pushes what is to be done when main returns, the latest on top. os.Exit does none of it.
use litime_timescaledb_inser.Prelude.{List, [], ◌∷◌, ◌++◌, Option, none, some, Result, ok, err}

-- What is acquired and released, and the goroutines that are started.
pub data Effect : Type 0 where
  signals_caught signals_released telemetry_started telemetry_stopped pool_opened pool_closed
        manager_started collector_started :
      Effect

pub record Frame : Type 0 where
  pub effects : List Effect
  pub deferred : List Effect

abbrev pub Proc {ℓ κ} : Type ℓ → Type κ → Type (ℓ ⊔ κ)
Proc E A = Frame → Frame × Result E A

module _ {ℓ κ μ} {E : Type ℓ} {A : Type κ} {B : Type μ} where
  unfoldable pub continue : (A → Proc E B) → Frame × Result E A → Frame × Result E B
  continue next (s, ok a) = next a s
  continue next (s, err e) = (s, err e)

  infixl 5 ◌>>=◌
  abbrev pub ◌>>=◌ : Proc E A → (A → Proc E B) → Proc E B
  (first >>= next) s = continue next (first s)

module _ {ℓ κ μ} {E : Type ℓ} {F : Type κ} {A : Type μ} where
  -- A call that does nothing outside, whose error is wrapped.
  unfoldable pub attempt : (E → F) → Result E A → Proc F A
  attempt wrap (ok a) s = (s, ok a)
  attempt wrap (err e) s = (s, err (wrap e))

  -- The error of a call, wrapped.
  unfoldable pub rewrapped : (E → F) → Frame × Result E A → Frame × Result F A
  rewrapped wrap (s, ok a) = (s, ok a)
  rewrapped wrap (s, err e) = (s, err (wrap e))

  unfoldable pub wrapped : (E → F) → Proc E A → Proc F A
  unfolding rewrapped
  wrapped wrap p s = rewrapped wrap (p s)

module _ {ℓ κ} {E : Type ℓ} {F : Type κ} where
  -- A call that returns an error or nil.
  unfoldable pub checked : (E → F) → Option E → Proc F (Unit {0})
  checked wrap none s = (s, ok tt)
  checked wrap (some e) s = (s, err (wrap e))

module _ {ℓ} {F : Type ℓ} where
  unfoldable pub perform : Effect → Proc F (Unit {0})
  perform e s = (record s { effects = s.effects ++ e ∷ [] }, ok tt)

  unfoldable pub defer : Effect → Proc F (Unit {0})
  defer e s = (record s { deferred = e ∷ s.deferred }, ok tt)

  unfoldable pub give {κ} : {A : Type κ} → A → Proc F A
  give a s = (s, ok a)
