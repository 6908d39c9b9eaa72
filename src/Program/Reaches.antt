-- ===== src/Program/Reaches.antt =====
-- Rules for main's procedures when every call that they make succeeds.
use litime_timescaledb_inser.Prelude.{
  ◌≡◌, sym, subst, [], ◌∷◌, ◌++◌, Option, none, some, Result, ok, err, ok-injective,
}
use litime_timescaledb_inser.Effects.{
  Effect, Frame, Proc, continue, attempt, wrapped, rewrapped, checked, perform, defer, give,
}

-- A procedure ends without an error, and with Q.
unfoldable pub Reaches {ℓ κ} :
    {E : Type ℓ} {A : Type κ} → (A → Frame → Type 0) → Frame × Result E A → Type 0
Reaches Q (s, ok a) = Q a s
Reaches Q (s, err e) = ⊥

module _ {ℓ κ} {E : Type ℓ} {A : Type κ} where
  err-not-ok : {e : E} {a : A} → ¬ (◌≡◌ {A = Result E A} (err e) (ok a))
  err-not-ok h = cc

some-not-none {ℓ} : {A : Type ℓ} {a : A} → ¬ (some a ≡ none)
some-not-none h = cc

module _ {ℓ κ μ} {F : Type ℓ} {A : Type κ} {B : Type μ} (R : B → Frame → Type 0)
    (next : A → Proc F B) where
  pub continue-Reaches :
      (p : Frame × Result F A) (Q : A → Frame → Type 0)
      → Reaches Q p
      → ((a : A) (s : Frame) → Q a s → Reaches R (next a s))
      → Reaches R (continue next p)
  unfolding Reaches continue
  continue-Reaches (s, ok a) Q h k = k a s h
  continue-Reaches (s, err e) Q h k = absurd h

  pub attempt-Reaches {ν} :
      {E : Type ν} (wrap : E → F) (r : Result E A) (s : Frame) (a : A)
      → r ≡ ok a
      → Reaches R (next a s)
      → Reaches R (continue next (attempt wrap r s))
  unfolding Reaches continue attempt
  attempt-Reaches wrap (ok b) s a e k = subst (λ c. Reaches R (next c s)) (sym (ok-injective e)) k
  attempt-Reaches wrap (err f) s a e k = absurd (err-not-ok e)

module _ {ℓ μ} {F : Type ℓ} {B : Type μ} (R : B → Frame → Type 0) (next : Unit {0} → Proc F B) where
  pub checked-Reaches {ν} :
      {E : Type ν} (wrap : E → F) (r : Option E) (s : Frame)
      → r ≡ none
      → Reaches R (next tt s)
      → Reaches R (continue next (checked wrap r s))
  unfolding continue checked
  checked-Reaches wrap none s e k = k
  checked-Reaches wrap (some f) s e k = absurd (some-not-none e)

  pub perform-Reaches :
      (e : Effect) (s : Frame)
      → Reaches R (next tt (record s { effects = s.effects ++ e ∷ [] }))
      → Reaches R (continue next (perform e s))
  unfolding continue perform
  perform-Reaches e s k = k

  pub defer-Reaches :
      (e : Effect) (s : Frame)
      → Reaches R (next tt (record s { deferred = e ∷ s.deferred }))
      → Reaches R (continue next (defer e s))
  unfolding continue defer
  defer-Reaches e s k = k

pub give-Reaches {ℓ κ} :
    (F : Type ℓ) {A : Type κ} (Q : A → Frame → Type 0) (a : A) (s : Frame)
    → Q a s
    → Reaches {E = F} Q (give a s)
unfolding Reaches give
give-Reaches F Q a s h = h

module _ {ℓ κ ν} {E : Type ℓ} {F : Type κ} {A : Type ν} (Q : A → Frame → Type 0)
    (wrap : E → F) where
  rewrapped-Reaches : (r : Frame × Result E A) → Reaches Q r → Reaches Q (rewrapped wrap r)
  unfolding Reaches rewrapped
  rewrapped-Reaches (t, ok a) h = h
  rewrapped-Reaches (t, err e) h = h

  pub wrapped-Reaches : (p : Proc E A) (s : Frame) → Reaches Q (p s) → Reaches Q (wrapped wrap p s)
  unfolding wrapped
  wrapped-Reaches p s h = rewrapped-Reaches (p s) h
