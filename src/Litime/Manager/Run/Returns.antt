-- ===== src/Litime/Manager/Run/Returns.antt =====
-- Run of the Manager returns once the context is cancelled, with its queue closed.
use litime_timescaledb_inser.Prelude.{
  ℕ, ◌≡◌, refl, sym, ap, ◌∙◌, true, false, List, [], ◌∷◌, ◌++◌, Option, none, some, Result, ok, err,
  ◌>>=◌, >>=-eq-ok, ok-injective, All, arith,
}
use litime_timescaledb_inser.Strings.{Text}
use litime_timescaledb_inser.Maps.{Map, lookup}
use litime_timescaledb_inser.Channel.{close, receive}
use litime_timescaledb_inser.Litime.Battery.{Battery}
use litime_timescaledb_inser.Litime.Metrics.{Metrics}
use litime_timescaledb_inser.Litime.Queue.{new_queue, close_readings}
use litime_timescaledb_inser.Litime.Queue.Stream as Stream
use litime_timescaledb_inser.Litime.Resolve.{Discovered, ResolveError, resolve_addresses}
use litime_timescaledb_inser.Litime.Supervise.{Round, returned, supervise_battery}
use litime_timescaledb_inser.Litime.Supervise.Shutdown.{Ends, Stops, supervise_battery_returns}
use litime_timescaledb_inser.Litime.Manager.{Manager, supervisors, run_starts}
use litime_timescaledb_inser.Litime.Manager.Run.{
  gave, all_done, supervise_all, leave, wait_all, run,
}

module _ {A : Type 0} where
  took-open :
      (h : Stream.History A)
      → (Stream.took h (receive h.queue.readings)).queue.closed ≡ h.queue.closed
  unfolding receive
  took-open h = ground arith

  -- A history without a close leaves an open queue open.
  run-open :
      (n : ℕ) (os : List (Stream.Op A)) (h : Stream.History A)
      → Stream.IsConsistent n h
      → h.queue.closed ≡ false
      → Stream.ends os ≡ 0
      → (g : Stream.History A) × (Stream.run h os ≡ ok g)
        × Stream.IsConsistent n g
        × (g.queue.closed ≡ false)
  unfolding Stream.run
  run-open n [] h c o k = (h, refl, c, o)
  run-open n (Stream.offer a ∷ os) h c o k =
      rw (Stream.offer-ok n h a c) (
        run-open n os (Stream.after_offer h a) (Stream.offer-IsConsistent n h a c) (ground arith) k)
  run-open n (Stream.end ∷ os) h c o k = absurd (ground arith)
  run-open n (Stream.take ∷ os) h c o k = rw (Stream.take-ok h) (
      run-open n os (Stream.took h (receive h.queue.readings))
        (Stream.took-IsConsistent n h h.queue.readings.items refl c) (took-open h ∙ o) k)

-- The error of resolveAddresses, or nil.
abbrev pub result_of :
    {Address : Type 0} → Result ResolveError (List (Battery × Option Address)) → Option ResolveError
result_of (ok started) = none
result_of (err e) = some e

module _ {Address Adapter Data : Type 0} (parse_address : Text → Option Address)
    (m : Manager Adapter Data) (metrics : Metrics) (world : Battery → List (Round Address)) where
  -- The context is cancelled in one of the rounds that a battery gets, and the polls before it come
  -- to an end.
  pub record IsStopped (b : Battery) : Type 0 where
    pub before : List (Round Address)
    pub last : Round Address
    pub after : List (Round Address)
    pub played : world b ≡ before ++ last ∷ after
    pub ended : All (Ends m.stale_timeout b parse_address m.batteries) before
    pub stopped : Stops last

  one-returned :
      (b : Battery) (address : Option Address)
      → IsStopped b
      → (supervise_battery m.stale_timeout b parse_address m.batteries address metrics (world b)).1
        ≡ returned
  one-returned b address s =
      ap
        (λ rs. (supervise_battery m.stale_timeout b parse_address m.batteries address metrics rs).1)
        s.played
      ∙ (supervise_battery_returns m.stale_timeout b parse_address m.batteries address metrics
          s.before s.after s.last s.ended s.stopped).0

  all-done :
      (bs : List Battery) (resolved : Map Address)
      → All IsStopped bs
      → all_done (supervise_all parse_address m metrics world (supervisors bs resolved)) ≡ true
  unfolding supervise_all supervisors
  all-done [] resolved s = refl
  all-done (b ∷ bs) resolved (s, rest) =
      rw (one-returned b (lookup b.id resolved) s) (all-done bs resolved rest)

  leave-closes :
      (n : ℕ) (h : Stream.History Data) (result : Option ResolveError)
      → Stream.IsConsistent n h
      → h.queue.closed ≡ false
      → leave parse_address m metrics world h result ≡ ok (Stream.ended h, gave result)
  unfolding leave close_readings close
  leave-closes n h result c o = ground arith

  wait_all-closes :
      (n : ℕ) (h : Stream.History Data) (r : Result ResolveError (List (Battery × Option Address)))
      → Stream.IsConsistent n h
      → h.queue.closed ≡ false
      → ((started : List (Battery × Option Address))
          → r ≡ ok started
          → all_done (supervise_all parse_address m metrics world started) ≡ true)
      → wait_all parse_address m metrics world h r ≡ ok (Stream.ended h, gave (result_of r))
  unfolding wait_all
  wait_all-closes n h (err e) c o d = leave-closes n h (some e) c o
  wait_all-closes n h (ok started) c o d = rw (d started refl) (leave-closes n h none c o)

  module _ (scan : List Text → Option (List (Discovered Address)))
      (arrange : Map (List Text) → Map (List Text)) where
    starts-done :
        (started : List (Battery × Option Address))
        → All IsStopped m.batteries
        → run_starts parse_address scan arrange m.batteries ≡ ok started
        → all_done (supervise_all parse_address m metrics world started) ≡ true
    unfolding run_starts
    starts-done started s e =
        let (resolved, first, second) =
          >>=-eq-ok (resolve_addresses parse_address scan arrange m.batteries)
            (λ resolved. ok (supervisors m.batteries resolved)) e in
        ap (λ l. all_done (supervise_all parse_address m metrics world l))
          (sym (ok-injective second))
        ∙ all-done m.batteries resolved s

    -- If the context is cancelled in some round of every battery, after rounds whose polls came to
    -- an end, then Run returns, with the error of resolveAddresses or nil. Whatever was offered and
    -- taken while it ran, nothing panics, the queue is then closed, and the readings that it
    -- accepted are those taken followed by those that wait. Conditions: the queue is a new one, and
    -- nothing but Run closes it.
    pub run_closes :
        (n : ℕ) (os : List (Stream.Op Data))
        → m.queue ≡ new_queue n
        → Stream.ends os ≡ 0
        → All IsStopped m.batteries
        → (h : Stream.History Data) × (run parse_address m metrics world scan arrange os
            ≡ ok (h, gave (result_of (run_starts parse_address scan arrange m.batteries))))
          × (h.queue.closed ≡ true)
          × (h.queue.readings.closed ≡ true)
          × (h.accepted ≡ h.taken ++ h.queue.readings.items)
    unfolding run new_queue
    run_closes n os fresh k s =
        let (h, e, c, o) = run-open n os (Stream.start n) (Stream.start-IsConsistent n) refl k in
        let first = run_starts parse_address scan arrange m.batteries in
        let rest = λ (g : Stream.History Data). wait_all parse_address m metrics world g first in
        (
          Stream.ended h,
          ap (λ q. Stream.run (record { queue = q; accepted = []; taken = [] }) os >>= rest) fresh
              ∙ ap (λ r. r >>= rest) e
              ∙ wait_all-closes n h first c o (λ started q. starts-done started s q),
          refl,
          refl,
          c.ordered,
        )
