-- ===== src/Litime/Queue/Drain.antt =====
-- What the writer gets of a queue that has been closed.
use mathlib.Core.List.{append_assoc, append-nil}
use litime_timescaledb_inser.Prelude.{
  ℕ, zero, suc, ◌≤◌, ◌≡◌, refl, sym, ap, ◌∙◌, true, List, [], ◌∷◌, ◌++◌, ok, arith, length,
}
use mathlib.Core.List.{append_assoc, append-nil}
use litime_timescaledb_inser.Channel.{receive}
use litime_timescaledb_inser.Litime.Queue.Stream.{
  Op, offer, end, take, History, run, ends, IsConsistent, took, took-IsConsistent, take-ok,
  offer-ok, after_offer,
}

module _ {A : Type 0} where
  abbrev pub takes : ℕ → List (Op A)
  takes zero = []
  takes (suc k) = take ∷ takes k

  took-nil : (h : History A) → h.queue.readings.items ≡ [] → took h (receive h.queue.readings) ≡ h
  unfolding receive
  took-nil h e = ground arith

  took-cons :
      (h : History A) (a : A) (rest : List A)
      → h.queue.readings.items ≡ a ∷ rest
      → let h1 = took h (receive h.queue.readings) in
        (h1.queue.readings.items ≡ rest) × (h1.taken ≡ h.taken ++ a ∷ [])
  unfolding receive
  took-cons h a rest e = ground arith

  drain :
      (k : ℕ) (h : History A) (items : List A)
      → h.queue.readings.items ≡ items
      → length items ≤ k
      → (h' : History A) × (run h (takes k) ≡ ok h') × (h'.taken ≡ h.taken ++ items)
  unfolding run
  drain zero h [] e b = (h, refl, sym (append-nil h.taken))
  drain zero h (a ∷ rest) e b = absurd (omega arith)
  drain (suc k) h [] e b = rw (take-ok h) (rw (took-nil h e) (drain k h [] e (omega arith)))
  drain (suc k) h (a ∷ rest) e b =
      let (queued, moved) = took-cons h a rest e in
      let (h', r, t) = drain k (took h (receive h.queue.readings)) rest queued (omega arith) in
      rw (take-ok h) (h', r, t ∙ ap (λ l. l ++ rest) moved ∙ append_assoc h.taken (a ∷ []) rest)

  after_offer_closed : (h : History A) (a : A) → h.queue.closed ≡ true → after_offer h a ≡ h
  after_offer_closed h a e = ground arith

  abbrev StaysClosed : ℕ → History A → List (Op A) → Type 0
  StaysClosed n h os =
      (h' : History A) × (run h os ≡ ok h') × IsConsistent n h' × (h'.accepted ≡ h.accepted)

  took_kept :
      (h : History A)
      → let h1 = took h (receive h.queue.readings) in
        (h1.accepted ≡ h.accepted) × (h1.queue.closed ≡ h.queue.closed)
  unfolding receive
  took_kept h = ground arith

  closed_run :
      (n : ℕ) (os : List (Op A)) (h : History A)
      → IsConsistent n h
      → h.queue.closed ≡ true
      → ends os ≡ 0
      → StaysClosed n h os
  unfolding run
  closed_run n [] h c cl k = (h, refl, c, refl)
  closed_run n (offer a ∷ os) h c cl k =
      rw (offer-ok n h a c) (rw (after_offer_closed h a cl) (closed_run n os h c cl k))
  closed_run n (end ∷ os) h c cl k = absurd (omega arith)
  closed_run n (take ∷ os) h c cl k =
      let (same, still) = took_kept h in
      let (h', r, c', a) =
        closed_run n os (took h (receive h.queue.readings))
          (took-IsConsistent n h h.queue.readings.items refl c) (still ∙ cl) k in
      rw (take-ok h) (h', r, c', a ∙ same)

  -- Once the queue is closed no history without another close changes what was accepted, and as
  -- many receives as the buffer holds hand the writer every accepted reading, in order.
  pub closed_drains :
      (n : ℕ) (h : History A) (late : List (Op A))
      → IsConsistent n h
      → h.queue.closed ≡ true
      → ends late ≡ 0
      → (h1 h2 : History A) × (run h late ≡ ok h1)
        × (h1.accepted ≡ h.accepted)
        × (run h1 (takes n) ≡ ok h2)
        × (h2.taken ≡ h.accepted)
  closed_drains n h late c cl k =
      let (h1, r1, c1, a1) = closed_run n late h c cl k in
      let (h2, r2, t2) = drain n h1 h1.queue.readings.items refl c1.bounded in
      (h1, h2, r1, a1, r2, t2 ∙ sym c1.ordered ∙ a1)
