-- ===== src/Durations.antt =====
-- Go's time.Duration: nanoseconds in an int64.
use litime_timescaledb_inser.Prelude.{
  ℕ, ◌+◌, ◌-◌, ◌*◌, ◌%◌, ◌^◌, ℤ, pos, negsuc, ltb, min, if◌then◌else◌,
}
use litime_timescaledb_inser.Prelude.Int.{pos_part, neg_part, sub_ℕ, ◌*ℤ◌}
pub mod Laws

abbrev pub Duration : Type 0
Duration = ℤ

abbrev pub second : ℕ
second = 1000000000

-- The bits of an integer read as an int64, which is what an int64 operation leaves of its result.
unfoldable pub to_int64 : ℤ → ℤ
to_int64 z =
    let bits = (pos_part z % 2 ^ 64 + (2 ^ 64 - neg_part z % 2 ^ 64)) % 2 ^ 64 in
    if ltb bits (2 ^ 63) then pos bits else negsuc (2 ^ 64 - bits - 1)

-- The product of two durations' counts, as int64.
unfoldable pub times : Duration → ℤ → Duration
unfolding to_int64 ◌*ℤ◌
times d k = to_int64 (d *ℤ k)

-- A number to the nearest multiple of an m above 0, a half upwards.
abbrev pub nearest : ℕ → ℕ → ℕ
nearest m d = if ltb (d % m + d % m) m then d - d % m else d - d % m + m

-- Duration.Round for an m above 0: to the nearest multiple, a half away from zero, and the greatest
-- or the least int64 where that is none.
unfoldable pub rounded : ℕ → Duration → Duration
rounded m (pos d) = pos (min (nearest m d) (2 ^ 63 - 1))
rounded m (negsuc d) = sub_ℕ 0 (min (nearest m (d + 1)) (2 ^ 63))
