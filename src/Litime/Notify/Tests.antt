-- ===== src/Litime/Notify/Tests.antt =====
-- Runs of handleNotification, and its theorems at concrete notifications. The parser stands for one
-- that takes single bytes.
use litime_timescaledb_inser.Prelude.{
  ℕ, pos, ◌≡◌, ◌≢◌, ◌⊎◌, refl, false, List, [], ◌∷◌, Option, none, some, ok,
}
use litime_timescaledb_inser.Strings.{codes}
use litime_timescaledb_inser.Litime.Metrics.{record_parse_failure}
use litime_timescaledb_inser.Litime.Notify.{Shared, Notification, handle_notification, handle_all}
use litime_timescaledb_inser.Litime.Notify.Accounts.{
  IsLive, Accounted, handle_all-Accounted, handle_notification-last_seen,
}

abbrev parse : List ℕ → Option ℕ
parse (b ∷ []) = some b
parse _ = none

abbrev at : ℕ → List ℕ → Notification
at t bytes = record { bytes = bytes; seen_at = pos t; observed_at = pos t }

abbrev fresh : Shared ℕ
fresh = record {
  queue = record { readings = record { capacity = 1; items = []; closed = false }; closed = false };
  metrics = some [];
  last_seen = pos 0;
}

-- One reading is kept, one is dropped, one does not parse.
abbrev three : List Notification
three = at 1 (7 ∷ []) ∷ at 2 (8 ∷ []) ∷ at 3 [] ∷ []

fresh-IsLive : IsLive parse (codes "attic") fresh
fresh-IsLive = record { flag_open = refl; channel_open = refl; reported = λ h. cc }

handle_all-Accounted_example :
    (t : Shared ℕ) × (handle_all parse (codes "attic") fresh three ≡ ok t)
    × Accounted parse (codes "attic") fresh t 3
handle_all-Accounted_example = handle_all-Accounted parse (codes "attic") three fresh fresh-IsLive

abbrev garbled : Shared ℕ
garbled = record fresh { metrics = record_parse_failure fresh.metrics (codes "attic") }

garbled_run : handle_notification parse (codes "attic") fresh (at 9 []) ≡ ok garbled
unfolding handle_notification
garbled_run = refl

handle_notification-last_seen_example :
    ((parse [] ≡ none) × (garbled.last_seen ≡ fresh.last_seen) × (garbled.queue ≡ fresh.queue))
    ⊎ ((parse [] ≢ none) × (garbled.last_seen ≡ pos 9))
handle_notification-last_seen_example =
    handle_notification-last_seen parse (codes "attic") fresh garbled (at 9 []) garbled_run
