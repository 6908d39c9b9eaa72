-- ===== src/Durations/Laws.antt =====
-- An int64 operation is exact where its result is in range.
use litime_timescaledb_inser.Prelude.{ℕ, ◌*◌, ◌^◌, ◌<◌, ◌≡◌, ◌∙◌, ap, arith, pos}
use litime_timescaledb_inser.Prelude.Int.{◌*ℤ◌}
use litime_timescaledb_inser.Durations.{to_int64, times}

pub to_int64-pos : (n : ℕ) → n < 2 ^ 63 → to_int64 (pos n) ≡ pos n
unfolding to_int64
to_int64-pos n h = ground arith

mul_pos : (n k : ℕ) → pos n *ℤ pos k ≡ pos (n * k)
unfolding ◌*ℤ◌
mul_pos n k = ground arith

pub times-pos : (n k : ℕ) → n * k < 2 ^ 63 → times (pos n) (pos k) ≡ pos (n * k)
unfolding times
times-pos n k h = ap to_int64 (mul_pos n k) ∙ to_int64-pos (n * k) h
