-- ===== src/Litime/Queue/Stream.antt =====
-- Histories of the reading queue: offers by the Bluetooth callbacks, the close at the end of Run,
-- and the receives of the writer, in any order.
use litime_timescaledb_inser.Prelude.{
  ℕ, suc, ◌+◌, ◌≤◌, ◌≡◌, refl, true, false, List, [], ◌∷◌, ◌++◌, Option, none, some, Result, ok,
  arith, length, length-append, ltb, if◌then◌else◌, ◌>>=◌,
}
use mathlib.Core.List.{append_assoc}
use litime_timescaledb_inser.Channel.{Channel, Panic, receive}
use litime_timescaledb_inser.Litime.Queue.{
  Queue, PublishResult, published, new_queue, publish, close_readings,
}

pub data Op (A : Type 0) : Type 0 where
  offer : A → Op A
  end take : Op A

-- The queue, with the readings that it accepted and those that the writer took, oldest first.
pub record History (A : Type 0) : Type 0 where
  pub queue : Queue A
  pub accepted : List A
  pub taken : List A

module _ {A : Type 0} where
  abbrev pub start : ℕ → History A
  start n = record { queue = new_queue n; accepted = []; taken = [] }

  abbrev offered : History A → A → Queue A × PublishResult → History A
  offered h a (q, published) = record h { queue = q; accepted = h.accepted ++ a ∷ [] }
  offered h a (q, _) = record h { queue = q }

  abbrev pub took : History A → Option (A × Channel A) → History A
  took h none = h
  took h (some (a, ch)) = record h {
    queue = record { readings = ch; closed = h.queue.closed };
    taken = h.taken ++ a ∷ [];
  }

  unfoldable pub step : History A → Op A → Result Panic (History A)
  unfolding publish close_readings receive
  step h (offer a) = publish h.queue a >>= λ r. ok (offered h a r)
  step h end = close_readings h.queue >>= λ q. ok (record h { queue = q })
  step h take = ok (took h (receive h.queue.readings))

  unfoldable pub run : History A → List (Op A) → Result Panic (History A)
  run h [] = ok h
  run h (o ∷ os) = step h o >>= λ h'. run h' os

  -- How often a history closes the queue.
  abbrev pub ends : List (Op A) → ℕ
  ends [] = 0
  ends (end ∷ os) = suc (ends os)
  ends (offer a ∷ os) = ends os
  ends (take ∷ os) = ends os

  pub record IsConsistent (n : ℕ) (h : History A) : Type 0 where
    pub bounded : length h.queue.readings.items ≤ n
    pub fixed : h.queue.readings.capacity ≡ n
    pub agree : h.queue.closed ≡ h.queue.readings.closed
    pub ordered : h.accepted ≡ h.taken ++ h.queue.readings.items

  pub start-IsConsistent : (n : ℕ) → IsConsistent n (start n)
  unfolding new_queue
  start-IsConsistent n = ground arith

  abbrev pub after_offer : History A → A → History A
  after_offer h a =
      if h.queue.closed
      then h
      else if ltb (length h.queue.readings.items) h.queue.readings.capacity
      then record h {
        queue = record {
          readings = record (h.queue.readings) { items = h.queue.readings.items ++ a ∷ [] };
          closed = h.queue.closed;
        };
        accepted = h.accepted ++ a ∷ [];
      }
      else h

  pub offer-ok :
      (n : ℕ) (h : History A) (a : A) → IsConsistent n h → step h (offer a) ≡ ok (after_offer h a)
  unfolding step
  offer-ok n h a c = ground arith

  pub offer-IsConsistent :
      (n : ℕ) (h : History A) (a : A) → IsConsistent n h → IsConsistent n (after_offer h a)
  offer-IsConsistent n h a c = ground (
    arith,
    length-append h.queue.readings.items (a ∷ []),
    append_assoc h.taken h.queue.readings.items (a ∷ []),
  )

  pub took-IsConsistent :
      (n : ℕ) (h : History A) (items : List A)
      → h.queue.readings.items ≡ items
      → IsConsistent n h
      → IsConsistent n (took h (receive h.queue.readings))
  unfolding receive
  took-IsConsistent n h [] e c = ground arith
  took-IsConsistent n h (a ∷ rest) e c = ground (arith, append_assoc h.taken (a ∷ []) rest)

  abbrev pub ended : History A → History A
  ended h = record h {
    queue = record { readings = record (h.queue.readings) { closed = true }; closed = true };
  }

  pub end-ok :
      (n : ℕ) (h : History A)
      → IsConsistent n h
      → h.queue.closed ≡ false
      → step h end ≡ ok (ended h)
  unfolding step
  end-ok n h c o = ground arith

  pub take-ok : (h : History A) → step h take ≡ ok (took h (receive h.queue.readings))
  unfolding step
  take-ok h = refl

  abbrev pub closes : History A → ℕ
  closes h = if h.queue.closed then 1 else 0

  took_closed : (h : History A) → closes (took h (receive h.queue.readings)) ≡ closes h
  unfolding receive
  took_closed h = ground arith

  pub run-IsConsistent :
      (n : ℕ) (os : List (Op A)) (h : History A)
      → IsConsistent n h
      → ends os + closes h ≤ 1
      → (h' : History A) × (run h os ≡ ok h') × IsConsistent n h'
  unfolding run
  run-IsConsistent n [] h c k = (h, refl, c)
  run-IsConsistent n (offer a ∷ os) h c k =
      rw (offer-ok n h a c)
        (run-IsConsistent n os (after_offer h a) (offer-IsConsistent n h a c) (ground arith))
  run-IsConsistent n (end ∷ os) h c k =
      rw (end-ok n h c (ground arith))
        (run-IsConsistent n os (ended h) (ground arith) (ground arith))
  run-IsConsistent n (take ∷ os) h c k = rw (take-ok h) (
      run-IsConsistent n os (took h (receive h.queue.readings))
        (took-IsConsistent n h h.queue.readings.items refl c) (omega (arith, took_closed h)))

  -- In every history that closes the queue at most once, offers and receives in any order, nothing
  -- panics: a late offer finds the queue shut down. The readings that were accepted are those taken
  -- followed by those still queued, in order, and never more than the buffer size wait.
  pub run_stream :
      (n : ℕ) (os : List (Op A))
      → ends os ≤ 1
      → (h : History A) × (run (start n) os ≡ ok h)
        × (h.accepted ≡ h.taken ++ h.queue.readings.items)
        × (length h.queue.readings.items ≤ n)
  unfolding new_queue
  run_stream n os k =
      let (h, e, c) = run-IsConsistent n os (start n) (start-IsConsistent n) (omega (arith, k)) in
      (h, e, c.ordered, c.bounded)
