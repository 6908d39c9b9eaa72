-- ===== src/Litime/Backoff/Bounds.antt =====
-- The backoff in numbers.
use litime_timescaledb_inser.Prelude.{
  ℕ, zero, suc, ◌*◌, ◌^◌, ◌≤◌, ◌≡◌, refl, ap, ◌∙◌, min, arith, pos,
}
use native.Mathlib.Nat.{pow-suc}
use litime_timescaledb_inser.Durations.Laws.{times-pos}
use litime_timescaledb_inser.Durations.{Duration, second}
use litime_timescaledb_inser.Litime.Backoff.{min_reconnect_backoff, next_backoff}

-- The backoff after k failures in a row.
abbrev pub backoff_after : ℕ → Duration
backoff_after zero = min_reconnect_backoff
backoff_after (suc k) = next_backoff (backoff_after k)

-- A duration between the two bounds.
pub record InBounds (d : Duration) : Type 0 where
  pub nanoseconds : ℕ
  pub is_pos : d ≡ pos nanoseconds
  pub at_least : 5 * second ≤ nanoseconds
  pub at_most : nanoseconds ≤ 300 * second

pub next_backoff-pos :
    (n : ℕ) → n ≤ 300 * second → next_backoff (pos n) ≡ pos (min (n * 2) (300 * second))
unfolding next_backoff
next_backoff-pos n h = rw (times-pos n 2 (omega arith), next_backoff) (ground arith)

pub next_backoff-InBounds : {d : Duration} → InBounds d → InBounds (next_backoff d)
next_backoff-InBounds b = record {
  nanoseconds = min (b.nanoseconds * 2) (300 * second);
  is_pos = ap next_backoff b.is_pos ∙ next_backoff-pos b.nanoseconds b.at_most;
  at_least = omega (arith, b);
  at_most = omega arith;
}

-- After k failures in a row the backoff is 5 s doubled k times, and at most 5 min.
pub backoff_after_lem : (k : ℕ) → backoff_after k ≡ pos (min (5 * second * 2 ^ k) (300 * second))
backoff_after_lem zero = refl
backoff_after_lem (suc k) =
    ap next_backoff (backoff_after_lem k)
    ∙ next_backoff-pos (min (5 * second * 2 ^ k) (300 * second)) (omega arith)
    ∙ ap pos (omega (arith, pow-suc 2 k))
