-- ===== src/Litime/Poll/Silence.antt =====
-- When pollUntilStale gives a battery up.
use litime_timescaledb_inser.Prelude.{
  ℕ, ◌+◌, ◌≤◌, ◌<◌, ◌≡◌, refl, ap, sym, ltb→lt, ◌∙◌, inl, inr, ◌⊎◌, true, false, List, [], ◌∷◌,
  ◌++◌, Option, none, some, ℤ, pos, arith, ltb, if◌then◌else◌, Bool-cases, All,
}
use litime_timescaledb_inser.Prelude.Int.{◌+ℤ◌, ◌-ℤ◌, ltb_ℤ, int_laws}
use litime_timescaledb_inser.Durations.{Duration, second, rounded}
use litime_timescaledb_inser.Litime.Poll.{
  PollEvent, seen, ticked, cancelled, Reason, no_reading, poll_until_stale,
}

no_reading-injective : {c d : Duration} → some (no_reading c) ≡ some (no_reading d) → c ≡ d
no_reading-injective h = cc

abbrev pub max : ℕ → ℕ → ℕ
max a b = if ltb a b then b else a

-- Ticks whose queries all succeed and bring no notification; the clock is read at these times after
-- `base`.
abbrev pub answered : ℤ → List ℕ → List PollEvent
answered base [] = []
answered base (k ∷ ks) = ticked true (base +ℤ pos k) ∷ answered base ks

-- From `last` on, the clock is read again after `gap` at most.
abbrev pub IsSpaced : ℕ → ℕ → List ℕ → Type 0
IsSpaced gap last [] = Unit
IsSpaced gap last (k ∷ ks) = (k ≤ last + gap) × IsSpaced gap k ks

since-base : (b : ℤ) (k : ℕ) → (b +ℤ pos k) -ℤ b ≡ pos k
since-base b k = omega int_laws

-- The outcome is the report of the first silence beyond the timeout, which is at most `limit`.
pub record GivenUp (stale limit : ℕ) (ks : List ℕ) (outcome : Option Reason) : Type 0 where
  pub before : List ℕ
  pub silence : ℕ
  pub after : List ℕ
  pub split : ks ≡ before ++ silence ∷ after
  pub quiet : All (λ k. k ≤ stale) before
  pub beyond : stale < silence
  pub soon : silence ≤ limit
  pub reported : outcome ≡ some (no_reading (rounded second (pos silence)))

poll-ticked :
    (base : ℤ) (stale k : ℕ) (es : List PollEvent)
    → poll_until_stale (pos stale) base (ticked true (base +ℤ pos k) ∷ es) ≡ (
        if ltb stale k
        then some (no_reading (rounded second (pos k)))
        else poll_until_stale (pos stale) base es)
unfolding poll_until_stale
poll-ticked base stale k es = rw (since-base base k) (ground arith)

silent_from :
    (base : ℤ) (gap stale bound last : ℕ) (ks : List ℕ)
    → last ≤ bound
    → stale ≤ bound
    → IsSpaced gap last ks
    → let outcome = poll_until_stale (pos stale) base (answered base ks) in
      (All (λ k. k ≤ stale) ks × (outcome ≡ none)) ⊎ GivenUp stale (bound + gap) ks outcome
silent_from base gap stale bound last [] h b s = inl (tt, unfold poll_until_stale in refl)
silent_from base gap stale bound last (k ∷ ks) h b (near, s) = elim (Bool-cases (ltb stale k)) [
  | inl e ↦ inr (record {
    before = [];
    silence = k;
    after = ks;
    split = refl;
    quiet = tt;
    beyond = ltb→lt stale k e;
    soon = omega (arith, near, h);
    reported = poll-ticked base stale k (answered base ks) ∙ rw e refl;
  })
  | inr e ↦
      let within : k ≤ stale = ground (arith, e) in
      let same : poll_until_stale (pos stale) base (answered base (k ∷ ks))
          ≡ poll_until_stale (pos stale) base (answered base ks) =
        poll-ticked base stale k (answered base ks) ∙ rw e refl in
      elim (silent_from base gap stale bound k ks (omega (arith, within, b)) b s) [
        | inl (all, quiet) ↦ inl ((within, all), same ∙ quiet)
        | inr g ↦ inr (record {
          before = k ∷ g.before;
          silence = g.silence;
          after = g.after;
          split = ap (◌∷◌ k) g.split;
          quiet = (within, g.quiet);
          beyond = g.beyond;
          soon = g.soon;
          reported = same ∙ g.reported;
        })
      ]
]

-- A battery that answers every query without ever sending a reading, the clock being read after
-- each query at times since lastSeen was set: the first at most `gap` after `delay`, which is when
-- the ticker starts, and each of the others at most `gap` after the one before. It is kept if all
-- these times are within the stale timeout. Otherwise it is given up at the first that is beyond
-- it, whatever comes later, and this time, rounded to a second, is the silence reported. It is
-- beyond the greater of the timeout and the delay by `gap` at most.
pub silence_detected :
    (base : ℤ) (delay gap stale : ℕ) (ks : List ℕ)
    → IsSpaced gap delay ks
    → let outcome = poll_until_stale (pos stale) base (answered base ks) in
      (All (λ k. k ≤ stale) ks × (outcome ≡ none))
      ⊎ GivenUp stale (max stale delay + gap) ks outcome
silence_detected base delay gap stale ks =
    silent_from base gap stale (max stale delay) delay ks (ground arith) (ground arith)

-- The time of the latest notification among the events, or the given one.
abbrev pub latest : ℤ → List PollEvent → ℤ
latest last [] = last
latest last (seen t ∷ es) = latest t es
latest last (ticked q now ∷ es) = latest last es
latest last (cancelled ∷ es) = latest last es

-- A tick at which a silence was measured and found too long, and d is what it is rounded to.
pub record Expired (stale : Duration) (last : ℤ) (es : List PollEvent) (d : Duration) : Type 0 where
  pub before : List PollEvent
  pub now : ℤ
  pub after : List PollEvent
  pub split : es ≡ before ++ ticked true now ∷ after
  pub silence : Duration
  pub measured : silence ≡ now -ℤ latest last before
  pub beyond : ltb_ℤ stale silence ≡ true
  pub reported : d ≡ rounded second silence

Expired-cons :
    {stale : Duration} {last t : ℤ} {es : List PollEvent} {d : Duration} (e : PollEvent)
    → ((b : List PollEvent) → latest last (e ∷ b) ≡ latest t b)
    → Expired stale t es d
    → Expired stale last (e ∷ es) d
Expired-cons e same x = record {
  before = e ∷ x.before;
  now = x.now;
  after = x.after;
  split = ap (◌∷◌ e) x.split;
  silence = x.silence;
  measured = x.measured ∙ ap (◌-ℤ◌ x.now) (sym (same x.before));
  beyond = x.beyond;
  reported = x.reported;
}

-- A connection is given up for silence only at a tick whose query succeeded and at which more than
-- the stale timeout has passed since the latest notification before the tick, or, if there has been
-- none, since lastSeen was first set, when connecting began. The silence reported is this time,
-- rounded to a second.
pub no_reading_truthful :
    (stale : Duration) (last : ℤ) (es : List PollEvent) (d : Duration)
    → poll_until_stale stale last es ≡ some (no_reading d)
    → Expired stale last es d
unfolding poll_until_stale
no_reading_truthful stale last [] d h = absurd (ground arith)
no_reading_truthful stale last (cancelled ∷ es) d h = absurd (ground arith)
no_reading_truthful stale last (seen t ∷ es) d h =
    Expired-cons (seen t) (λ b. refl) (no_reading_truthful stale t es d h)
no_reading_truthful stale last (ticked false now ∷ es) d h = absurd (ground arith)
no_reading_truthful stale last (ticked true now ∷ es) d h =
    elim (Bool-cases (ltb_ℤ stale (now -ℤ last))) [
      | inl e ↦ record {
        before = [];
        now = now;
        after = es;
        split = refl;
        silence = now -ℤ last;
        measured = refl;
        beyond = e;
        reported = sym (no_reading-injective (rw e at h));
      }
      | inr e ↦
          Expired-cons (ticked true now) (λ b. refl)
            (no_reading_truthful stale last es d (rw e at h))
    ]
