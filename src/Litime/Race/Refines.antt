-- ===== src/Litime/Race/Refines.antt =====
-- The interleaved threads of Litime/Race behave like the single steps of Litime/Queue.
use litime_timescaledb_inser.Prelude.{
  ℕ, ◌≡◌, ◌≤◌, refl, ap, ◌∙◌, Bool, List, [], ◌∷◌, ◌++◌, Option, none, some, Result, ok, err, ◌+◌,
  >>=-eq-ok, ok-injective, arith, if◌then◌else◌, ◌>>=◌,
}
use litime_timescaledb_inser.Channel.{Channel, Panic, make, try_send, close, receive}
use litime_timescaledb_inser.Litime.Queue.{new_queue}
use litime_timescaledb_inser.Litime.Queue.Stream.{
  Op, offer, end, take, History, start, run, step, ends, IsConsistent, start-IsConsistent,
  after_offer, offer-ok, offer-IsConsistent, ended, end-ok, took, took-IsConsistent, take-ok,
}
use litime_timescaledb_inser.Litime.Race.{Race, begin, Step, Reach}
use litime_timescaledb_inser.Litime.Race.Safety.{Inv, begin-Inv, Reach-Inv, open_for}

-- How often a channel has been closed.
abbrev pub closings : Bool → ℕ
closings closed = if closed then 1 else 0

module _ {A : Type 0} where
  then_done : (m : Result Panic (History A)) → (m >>= λ h. ok h) ≡ m
  then_done (ok h) = refl
  then_done (err e) = refl

  run-snoc :
      (h h' : History A) (os : List (Op A)) (o : Op A)
      → run h os ≡ ok h'
      → run h (os ++ o ∷ []) ≡ step h' o
  unfolding run
  run-snoc h h' [] o e = then_done (step h o) ∙ ap (λ x. step x o) (ok-injective e)
  run-snoc h h' (p ∷ os) o e =
      let (mid, first, rest) = >>=-eq-ok (step h p) (λ x. run x os) e in
      rw first (run-snoc mid h' os o rest)

  ends-append : (os ps : List (Op A)) → ends (os ++ ps) ≡ ends os + ends ps
  ends-append [] ps = omega arith
  ends-append (offer b ∷ os) ps = ends-append os ps
  ends-append (take ∷ os) ps = ends-append os ps
  ends-append (end ∷ os) ps = omega (arith, ends-append os ps)

  -- What a step of a thread does to the queue as a single step: a send or a drop is an offer, the
  -- close of the channel is closeReadings, and the other steps show nothing.
  abbrev pub visible : {s t : Race A} → Step s t → Option (Op A)
  visible (Step.rlock i p h) = none
  visible (Step.see_closed i p h) = none
  visible (Step.see_open i p h) = none
  visible (Step.send i a ch p h) = some (offer a)
  visible (Step.drop i a p h) = some (offer a)
  visible (Step.send_panics i a e p h) = none
  visible (Step.runlock i p) = none
  visible (Step.lock p h) = none
  visible (Step.mark p) = none
  visible (Step.close_channel ch p h) = some end
  visible (Step.close_panics e p h) = none
  visible (Step.unlock p) = none
  visible (Step.take a ch h) = some take

  abbrev add : List (Op A) → Option (Op A) → List (Op A)
  add os none = os
  add os (some o) = os ++ o ∷ []

  -- The single steps of an interleaving, in order.
  abbrev pub trace : {s t : Race A} → Reach s t → List (Op A)
  trace Reach.here = []
  trace (Reach.next r st) = add (trace r) (visible st)

  -- The single steps run without a panic, end with the same channel, and close it as often.
  pub record Refined (n : ℕ) (ops : List (Op A)) (s : Race A) : Type 0 where
    pub history : History A
    pub runs : run (start n) ops ≡ ok history
    pub consistent : IsConsistent n history
    pub once : ends ops ≡ closings s.readings.closed
    pub same : history.queue.readings ≡ s.readings

  begin-Refined : (n : ℕ) → Refined n [] (begin n)
  unfolding begin run new_queue make
  begin-Refined n = record {
    history = start n;
    runs = refl;
    consistent = start-IsConsistent n;
    once = refl;
    same = refl;
  }

  -- A step that leaves the channel alone needs no single step.
  stutter :
      {n : ℕ} {os : List (Op A)} {s t : Race A}
      → Refined n os s
      → s.readings ≡ t.readings
      → Refined n os t
  stutter r e = record {
    history = r.history;
    runs = r.runs;
    consistent = r.consistent;
    once = r.once ∙ ap (λ (ch : Channel A). closings ch.closed) e;
    same = r.same ∙ e;
  }

  extend :
      {n : ℕ} {os : List (Op A)} {s t : Race A} (r : Refined n os s) (o : Op A) (h : History A)
      → step r.history o ≡ ok h
      → IsConsistent n h
      → ends (o ∷ []) + closings s.readings.closed ≡ closings t.readings.closed
      → h.queue.readings ≡ t.readings
      → Refined n (os ++ o ∷ []) t
  extend {n} {os} r o h e c k q = record {
    history = h;
    runs = run-snoc (start n) r.history os o r.runs ∙ e;
    consistent = c;
    once = omega (arith, ends-append os (o ∷ []), r.once, k);
    same = q;
  }

  Step-Refined :
      {n : ℕ} {os : List (Op A)} {s t : Race A} (st : Step s t)
      → Inv s
      → Refined n os s
      → Refined n (add os (visible st)) t
  unfolding try_send close receive
  Step-Refined (Step.rlock i p h) v r = stutter r refl
  Step-Refined (Step.see_closed i p h) v r = stutter r refl
  Step-Refined (Step.see_open i p h) v r = stutter r refl
  Step-Refined {n} {s} (Step.send i a ch p h) v r =
      extend r (offer a) (after_offer r.history a) (offer-ok n r.history a r.consistent)
        (offer-IsConsistent n r.history a r.consistent) (ground (arith, open_for s i v p))
        (ground (arith, open_for s i v p))
  Step-Refined {n} {s} (Step.drop i a p h) v r =
      extend r (offer a) (after_offer r.history a) (offer-ok n r.history a r.consistent)
        (offer-IsConsistent n r.history a r.consistent) (ground (arith, open_for s i v p))
        (ground (arith, open_for s i v p))
  Step-Refined {n} {s} (Step.send_panics i a e p h) v r = stutter r refl
  Step-Refined (Step.runlock i p) v r = stutter r refl
  Step-Refined (Step.lock p h) v r = stutter r refl
  Step-Refined (Step.mark p) v r = stutter r refl
  Step-Refined {n} {s} (Step.close_channel ch p h) v r =
      extend r end (ended r.history) (end-ok n r.history r.consistent (ground arith)) (ground arith)
        (ground arith) (ground arith)
  Step-Refined (Step.close_panics e p h) v r = stutter r refl
  Step-Refined (Step.unlock p) v r = stutter r refl
  Step-Refined {n} {s} (Step.take a ch h) v r =
      extend r take (took r.history (receive r.history.queue.readings)) (take-ok r.history)
        (took-IsConsistent n r.history r.history.queue.readings.items refl r.consistent)
        (ground arith) (ground arith)

  Reach-Refined : {n : ℕ} {s : Race A} (r : Reach (begin n) s) → Refined n (trace r) s
  Reach-Refined {n} Reach.here = begin-Refined n
  Reach-Refined {n} (Reach.next r st) =
      Step-Refined st (Reach-Inv (begin-Inv n) r) (Reach-Refined r)

  -- Every interleaving of the callbacks, the closing Run and the writer does to the channel what its
  -- single steps do, one after another in the order of the sends, the drops, the close and the
  -- receives: they run without a panic, end with the same channel, and close it at most once. So the
  -- readings that the threads sent are those received followed by those in the channel, in order.
  pub Reach-refines :
      (n : ℕ) (s : Race A) (r : Reach (begin n) s)
      → (h : History A) × (run (start n) (trace r) ≡ ok h)
        × (h.queue.readings ≡ s.readings)
        × (ends (trace r) ≤ 1)
        × (h.accepted ≡ h.taken ++ s.readings.items)
  Reach-refines n s r =
      let f = Reach-Refined r in
      (
        f.history,
        f.runs,
        f.same,
        ground (arith, f.once),
        f.consistent.ordered ∙ ap (λ (ch : Channel A). f.history.taken ++ ch.items) f.same,
      )
