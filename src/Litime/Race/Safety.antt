-- ===== src/Litime/Race/Safety.antt =====
-- No interleaving of publishers with closeReadings panics.
use litime_timescaledb_inser.Prelude.{
  ℕ, ◌≤◌, ◌≡◌, ◌≢◌, ◌⊎◌, inl, inr, Bool-cases, refl, Bool, true, false, arith, length,
  length-append, [], ◌∷◌,
}
use litime_timescaledb_inser.Channel.{try_send, close, receive}
use litime_timescaledb_inser.Litime.Race.{
  outside, sending, Closer, waiting, holding, marked, closing, finished, Race, holds, begin, Step,
  Reach,
}

-- Whether the flag and the channel are closed, as far as closeReadings has come.
abbrev pub flag_at : Closer → Bool
flag_at waiting = false
flag_at holding = false
flag_at _ = true

abbrev pub channel_at : Closer → Bool
channel_at closing = true
channel_at finished = true
channel_at _ = false

module _ {A : Type 0} where
  pub record Inv (s : Race A) : Type 0 where
    pub alone : (i : ℕ) → holds s.closer ≡ true → s.publishers i ≡ outside
    pub guarded : (i : ℕ) → s.publishers i ≡ sending → s.closed ≡ false
    pub flag : s.closed ≡ flag_at s.closer
    pub channel : s.readings.closed ≡ channel_at s.closer
    pub calm : s.panicked ≡ false
    pub bounded : length s.readings.items ≤ s.readings.capacity

  pub begin-Inv : (n : ℕ) → Inv (begin n)
  unfolding begin
  begin-Inv n = record {
    alone = λ i h. refl;
    guarded = λ i h. cc;
    flag = refl;
    channel = refl;
    calm = refl;
    bounded = omega arith;
  }

  -- While a publisher is sending, the channel is open.
  pub open_for : (s : Race A) (i : ℕ) → Inv s → s.publishers i ≡ sending → s.readings.closed ≡ false
  open_for s i v h =
      elim s.closer
          as (λ c.
            s.closed ≡ flag_at c → s.readings.closed ≡ channel_at c → s.readings.closed ≡ false) [
              | waiting ↦ λ f c. c
              | holding ↦ λ f c. c
              | marked ↦ λ f c. c
              | closing ↦ λ f c. cc (f, v.guarded i h)
              | finished ↦ λ f c. cc (f, v.guarded i h)
            ]
        v.flag v.channel

  Step-Inv : {s t : Race A} → Step s t → Inv s → Inv t
  unfolding try_send close receive
  Step-Inv {s} (Step.rlock i p h) v = record {
    alone = λ j k. ground (arith, v.alone j);
    guarded = λ j k. ground (arith, v.guarded j);
    flag = ground (arith);
    channel = ground (arith);
    calm = v.calm;
    bounded = ground (arith);
  }
  Step-Inv {s} (Step.see_closed i p h) v = record {
    alone = λ j k. ground (arith, v.alone j, v.alone i);
    guarded = λ j k. ground (arith, v.guarded j, v.alone i);
    flag = ground (arith, v.alone i);
    channel = ground (arith, v.alone i);
    calm = v.calm;
    bounded = ground (arith, v.alone i);
  }
  Step-Inv {s} (Step.see_open i p h) v = record {
    alone = λ j k. ground (arith, v.alone j, v.alone i);
    guarded = λ j k. ground (arith, v.guarded j, v.alone i);
    flag = ground (arith, v.alone i);
    channel = ground (arith, v.alone i);
    calm = v.calm;
    bounded = ground (arith, v.alone i);
  }
  Step-Inv {s} (Step.send i a ch p h) v = record {
    alone = λ j k.
        ground
          (arith, v.alone j, v.alone i, open_for s i v p, length-append s.readings.items (a ∷ []));
    guarded = λ j k.
        ground (
          arith,
          v.guarded j,
          v.alone i,
          open_for s i v p,
          length-append s.readings.items (a ∷ []),
        );
    flag = ground (arith, v.alone i, open_for s i v p, length-append s.readings.items (a ∷ []));
    channel = ground (arith, v.alone i, open_for s i v p, length-append s.readings.items (a ∷ []));
    calm = v.calm;
    bounded = ground (arith, v.alone i, open_for s i v p, length-append s.readings.items (a ∷ []));
  }
  Step-Inv {s} (Step.drop i a p h) v = record {
    alone = λ j k. ground (arith, v.alone j, v.alone i);
    guarded = λ j k. ground (arith, v.guarded j, v.alone i);
    flag = ground (arith, v.alone i);
    channel = ground (arith, v.alone i);
    calm = v.calm;
    bounded = ground (arith, v.alone i);
  }
  Step-Inv {s} (Step.send_panics i a e p h) v = record {
    alone = λ j k. ground (arith, v.alone j, open_for s i v p);
    guarded = λ j k. ground (arith, v.guarded j, open_for s i v p);
    flag = ground (arith, open_for s i v p);
    channel = ground (arith, open_for s i v p);
    calm = ground (arith, open_for s i v p);
    bounded = ground (arith, open_for s i v p);
  }
  Step-Inv {s} (Step.runlock i p) v = record {
    alone = λ j k. ground (arith, v.alone j, v.alone i);
    guarded = λ j k. ground (arith, v.guarded j, v.alone i);
    flag = ground (arith, v.alone i);
    channel = ground (arith, v.alone i);
    calm = v.calm;
    bounded = ground (arith, v.alone i);
  }
  Step-Inv {s} (Step.lock p h) v = record {
    alone = λ j k. ground (arith, v.alone j, h j);
    guarded = λ j k. ground (arith, v.guarded j, h j);
    flag = ground (arith);
    channel = ground (arith);
    calm = v.calm;
    bounded = ground (arith);
  }
  Step-Inv {s} (Step.mark p) v = record {
    alone = λ j k. ground (arith, v.alone j, v.alone j);
    guarded = λ j k. ground (arith, v.guarded j, v.alone j);
    flag = ground (arith);
    channel = ground (arith);
    calm = v.calm;
    bounded = ground (arith);
  }
  Step-Inv {s} (Step.close_channel ch p h) v = record {
    alone = λ j k. ground (arith, v.alone j);
    guarded = λ j k. ground (arith, v.guarded j);
    flag = ground (arith);
    channel = ground (arith);
    calm = v.calm;
    bounded = ground (arith);
  }
  Step-Inv {s} (Step.close_panics e p h) v = record {
    alone = λ j k. ground (arith, v.alone j);
    guarded = λ j k. ground (arith, v.guarded j);
    flag = ground (arith);
    channel = ground (arith);
    calm = ground arith;
    bounded = ground (arith);
  }
  Step-Inv {s} (Step.unlock p) v = record {
    alone = λ j k. ground (arith, v.alone j);
    guarded = λ j k. ground (arith, v.guarded j);
    flag = ground (arith);
    channel = ground (arith);
    calm = v.calm;
    bounded = ground (arith);
  }
  Step-Inv {s} (Step.take a ch h) v = record {
    alone = λ j k. ground (arith, v.alone j);
    guarded = λ j k. ground (arith, v.guarded j);
    flag = ground (arith);
    channel = ground (arith);
    calm = v.calm;
    bounded = ground (arith);
  }

  pub Reach-Inv : {s t : Race A} → Inv s → Reach s t → Inv t
  Reach-Inv v Reach.here = v
  Reach-Inv v (Reach.next r st) = Step-Inv st (Reach-Inv v r)

  -- However the callbacks, the closing Run and the writer interleave, no send meets a closed
  -- channel and the channel is not closed twice: nothing panics. A callback between its test of
  -- closed and its send keeps the channel open.
  pub Reach-safe :
      (n : ℕ) (s : Race A) (i : ℕ)
      → Reach (begin n) s
      → (s.panicked ≡ false) × ((s.publishers i ≢ sending) ⊎ (s.readings.closed ≡ false))
  Reach-safe n s i r =
      let v = Reach-Inv (begin-Inv n) r in
      (
        v.calm,
        elim (Bool-cases s.readings.closed) [
          | inl e ↦ inl (λ h. cc (e, open_for s i v h))
          | inr e ↦ inr e
        ],
      )

  pub no_late_send :
      {s t : Race A}
      → Inv s
      → s.closed ≡ true
      → Step s t
      → length t.readings.items ≤ length s.readings.items
  unfolding try_send close receive
  no_late_send v e (Step.rlock i p h) = omega arith
  no_late_send v e (Step.see_closed i p h) = omega arith
  no_late_send v e (Step.see_open i p h) = omega arith
  no_late_send v e (Step.send i a ch p h) = ground (arith, v.guarded i p)
  no_late_send v e (Step.drop i a p h) = omega arith
  no_late_send v e (Step.send_panics i a x p h) = omega arith
  no_late_send v e (Step.runlock i p) = omega arith
  no_late_send v e (Step.lock p h) = omega arith
  no_late_send v e (Step.mark p) = omega arith
  no_late_send v e (Step.close_channel ch p h) = ground arith
  no_late_send v e (Step.close_panics x p h) = omega arith
  no_late_send v e (Step.unlock p) = omega arith
  no_late_send v e (Step.take a ch h) = ground arith

  stays_closed : {s t : Race A} → s.closed ≡ true → Step s t → t.closed ≡ true
  stays_closed e (Step.mark p) = refl
  stays_closed e (Step.rlock i p h) = e
  stays_closed e _ = e

  -- From the moment that closeReadings has set closed, no interleaving adds a reading to the queue.
  pub closed_shrinks :
      (n : ℕ) (s t : Race A)
      → Reach (begin n) s
      → s.closed ≡ true
      → Reach s t
      → (t.closed ≡ true) × (length t.readings.items ≤ length s.readings.items)
  closed_shrinks n s t r e later = both later
    where
      both :
          {u : Race A}
          → Reach s u
          → (u.closed ≡ true) × (length u.readings.items ≤ length s.readings.items)
      both Reach.here = (e, omega arith)
      both (Reach.next q st) =
          let (still, fewer) = both q in
          let v = Reach-Inv (Reach-Inv (begin-Inv n) r) q in
          (stays_closed still st, omega (arith, no_late_send v still st))
