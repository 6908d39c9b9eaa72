-- ===== src/Program/Rules.antt =====
-- Rules for main's procedures: what holds at the end, or that the procedure has failed before main
-- had started everything.
use litime_timescaledb_inser.Prelude.{
  ◌≡◌, refl, sym, subst, List, [], ◌∷◌, ◌++◌, Option, none, some, Result, ok, err,
}
use litime_timescaledb_inser.Effects.{
  Effect, Frame, Proc, continue, attempt, wrapped, rewrapped, checked, perform, defer, give,
  signals_caught, signals_released, telemetry_started, telemetry_stopped, pool_opened, pool_closed,
  manager_started, collector_started,
}

-- Everything that main starts, in order; the collector only if a device is configured.
abbrev pub all_started : List Effect
all_started =
    signals_caught ∷ telemetry_started ∷ pool_opened ∷ manager_started ∷ collector_started ∷ []

abbrev pub without_collector : List Effect
without_collector = signals_caught ∷ telemetry_started ∷ pool_opened ∷ manager_started ∷ []

-- What main does when it returns.
abbrev pub all_ended : List Effect
all_ended = pool_closed ∷ telemetry_stopped ∷ signals_released ∷ []

-- Only what main starts has been done, and in its order, up to some point.
abbrev pub IsEarly : List Effect → Type 0
IsEarly effects = (rest : List Effect) × (effects ++ rest ≡ all_started)

-- A procedure ends with Q, or fails early.
unfoldable pub Ends {ℓ κ} :
    {E : Type ℓ} {A : Type κ} → (A → Frame → Type 0) → Frame × Result E A → Type 0
Ends Q (s, ok a) = Q a s
Ends Q (s, err e) = IsEarly s.effects

module _ {ℓ κ μ} {F : Type ℓ} {A : Type κ} {B : Type μ} (R : B → Frame → Type 0)
    (next : A → Proc F B) where
  pub follow-Ends :
      (p : Frame × Result F A) (Q : A → Frame → Type 0)
      → Ends Q p
      → ((a : A) (s : Frame) → Q a s → Ends R (next a s))
      → Ends R (continue next p)
  unfolding Ends continue
  follow-Ends (s, ok a) Q h k = k a s h
  follow-Ends (s, err e) Q h k = h

  -- From a procedure that ends in one state.
  pub continue-Ends :
      (p : Frame × Result F A) (t : Frame)
      → Ends (λ a s. s ≡ t) p
      → ((a : A) → Ends R (next a t))
      → Ends R (continue next p)
  continue-Ends p t h k =
      follow-Ends p (λ a s. s ≡ t) h (λ a s e. subst (λ u. Ends R (next a u)) (sym e) (k a))

  pub attempt-Ends {ν} :
      {E : Type ν} (wrap : E → F) (r : Result E A) (s : Frame)
      → IsEarly s.effects
      → ((a : A) → r ≡ ok a → Ends R (next a s))
      → Ends R (continue next (attempt wrap r s))
  unfolding Ends continue attempt
  attempt-Ends wrap (ok a) s h k = k a refl
  attempt-Ends wrap (err e) s h k = h

module _ {ℓ μ} {F : Type ℓ} {B : Type μ} (R : B → Frame → Type 0) (next : Unit {0} → Proc F B) where
  pub checked-Ends {ν} :
      {E : Type ν} (wrap : E → F) (r : Option E) (s : Frame)
      → IsEarly s.effects
      → Ends R (next tt s)
      → Ends R (continue next (checked wrap r s))
  unfolding Ends continue checked
  checked-Ends wrap none s h k = k
  checked-Ends wrap (some e) s h k = h

  pub perform-Ends :
      (e : Effect) (s : Frame)
      → Ends R (next tt (record s { effects = s.effects ++ e ∷ [] }))
      → Ends R (continue next (perform e s))
  unfolding continue perform
  perform-Ends e s k = k

  pub defer-Ends :
      (e : Effect) (s : Frame)
      → Ends R (next tt (record s { deferred = e ∷ s.deferred }))
      → Ends R (continue next (defer e s))
  unfolding continue defer
  defer-Ends e s k = k

pub give-Ends {ℓ κ} :
    (F : Type ℓ) {A : Type κ} (Q : A → Frame → Type 0) (a : A) (s : Frame)
    → Q a s
    → Ends {E = F} Q (give a s)
unfolding Ends give
give-Ends F Q a s h = h

module _ {ℓ κ ν} {E : Type ℓ} {F : Type κ} {A : Type ν} (Q : A → Frame → Type 0)
    (wrap : E → F) where
  rewrapped-Ends : (r : Frame × Result E A) → Ends Q r → Ends Q (rewrapped wrap r)
  unfolding Ends rewrapped
  rewrapped-Ends (t, ok a) h = h
  rewrapped-Ends (t, err e) h = h

  pub wrapped-Ends : (p : Proc E A) (s : Frame) → Ends Q (p s) → Ends Q (wrapped wrap p s)
  unfolding wrapped
  wrapped-Ends p s h = rewrapped-Ends (p s) h
