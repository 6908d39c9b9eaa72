-- ===== src/Litime/Race/Tests.antt =====
-- The theorems on interleavings at concrete ones: a callback takes the lock, tests closed and is
-- about to send; and one in which closeReadings takes the lock, sets closed and closes the
-- channel.
use litime_timescaledb_inser.Prelude.{
  ok, ◌∷◌, ◌++◌, ℕ, ◌≡◌, ◌≢◌, ◌≤◌, ◌⊎◌, refl, true, false, [], length,
}
use litime_timescaledb_inser.Channel.{try_send, Channel, close, make}
use litime_timescaledb_inser.Litime.Race.{
  leaving, entered, sending, holding, marked, closing, Race, begin, move, Step, Reach,
}
use litime_timescaledb_inser.Litime.Queue.Stream.{History, start, run, ends}
use litime_timescaledb_inser.Litime.Race.Refines.{trace, Reach-refines}
use litime_timescaledb_inser.Litime.Race.Safety.{Reach-safe, closed_shrinks}

abbrev s1 : Race ℕ
s1 = move (begin 1) 0 entered

abbrev s2 : Race ℕ
s2 = move s1 0 sending

to_sending : Reach (begin 1) s2
unfolding begin make
to_sending = Reach.next (Reach.next Reach.here (Step.rlock 0 refl refl)) (Step.see_open 0 refl refl)

Reach-safe_example :
    (s2.panicked ≡ false) × ((s2.publishers 0 ≢ sending) ⊎ (s2.readings.closed ≡ false))
Reach-safe_example = Reach-safe 1 s2 0 to_sending

abbrev s4 : Race ℕ
s4 = record (begin 1) { closer = holding }

abbrev s5 : Race ℕ
s5 = record s4 { closer = marked; closed = true }

to_marked : Reach (begin 1) s5
unfolding begin
to_marked = Reach.next (Reach.next Reach.here (Step.lock refl (λ i. refl))) (Step.mark refl)

abbrev s6 : Race ℕ
s6 = record s5 { closer = closing; readings = record { capacity = 1; items = []; closed = true } }

then_closed : Reach s5 s6
unfolding begin make close
then_closed = Reach.next Reach.here (Step.close_channel (s6.readings) refl refl)

closed_shrinks_example : (s6.closed ≡ true) × (length s6.readings.items ≤ length s5.readings.items)
closed_shrinks_example = closed_shrinks 1 s5 s6 to_marked refl then_closed

abbrev one_sent : Channel ℕ
one_sent = record { capacity = 1; items = 5 ∷ []; closed = false }

abbrev s3 : Race ℕ
s3 = record (move s2 0 leaving) { readings = one_sent }

-- The callback's send, behind what leads to it.
abbrev to_sent : Reach (begin 1) s2 → Reach (begin 1) s3
unfolding begin make try_send
to_sent r = Reach.next r (Step.send 0 5 one_sent refl refl)

Reach-refines_example :
    (h : History ℕ) × (run (start 1) (trace (to_sent to_sending)) ≡ ok h)
    × (h.queue.readings ≡ s3.readings)
    × (ends (trace (to_sent to_sending)) ≤ 1)
    × (h.accepted ≡ h.taken ++ s3.readings.items)
Reach-refines_example = Reach-refines 1 s3 (to_sent to_sending)
