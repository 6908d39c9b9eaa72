-- ===== src/Litime/Queue/Tests.antt =====
-- Runs of the reading queue, and the theorems on its histories at concrete ones.
use litime_timescaledb_inser.Prelude.{
  ℕ, ◌≡◌, ◌≤◌, refl, true, List, [], ◌∷◌, ◌++◌, ok, err, length, arith,
}
use litime_timescaledb_inser.Channel.{try_send, close, close_of_closed}
use litime_timescaledb_inser.Litime.Queue.{publish, close_readings, new_queue}
use litime_timescaledb_inser.Litime.Queue.Stream.{
  Op, offer, end, take, History, start, step, run, run_stream, IsConsistent,
}
use litime_timescaledb_inser.Litime.Queue.Drain.{takes, closed_drains}

-- A buffer of two: the third offer is dropped, and the last one comes after the close.
abbrev busy : List (Op ℕ)
busy = offer 1 ∷ offer 2 ∷ offer 3 ∷ take ∷ end ∷ offer 4 ∷ []

run_stream_example :
    (h : History ℕ) × (run (start 2) busy ≡ ok h)
    × (h.accepted ≡ h.taken ++ h.queue.readings.items)
    × (length h.queue.readings.items ≤ 2)
run_stream_example = run_stream 2 busy (omega arith)

abbrev closed_with_two : History ℕ
closed_with_two = record {
  queue = record {
    readings = record { capacity = 2; items = 1 ∷ 2 ∷ []; closed = true };
    closed = true;
  };
  accepted = 1 ∷ 2 ∷ [];
  taken = [];
}

reaches_closed : run (start 2) (offer 1 ∷ offer 2 ∷ end ∷ []) ≡ ok closed_with_two
unfolding run step publish close_readings new_queue try_send close
reaches_closed = refl

closes_twice : run {A = ℕ} (start 2) (end ∷ end ∷ []) ≡ err close_of_closed
unfolding run step close_readings new_queue close
closes_twice = refl

closed_with_two-IsConsistent : IsConsistent 2 closed_with_two
closed_with_two-IsConsistent = ground arith

closed_drains_example :
    (h1 h2 : History ℕ) × (run closed_with_two (offer 7 ∷ []) ≡ ok h1)
    × (h1.accepted ≡ closed_with_two.accepted)
    × (run h1 (takes 2) ≡ ok h2)
    × (h2.taken ≡ closed_with_two.accepted)
closed_drains_example =
    closed_drains 2 closed_with_two (offer 7 ∷ []) closed_with_two-IsConsistent refl refl
