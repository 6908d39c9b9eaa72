-- ===== src/Logging.antt =====
-- internal/logging/logging.go: LogLevelToSlogLevel. The lower case of the runes from 128 on is the
-- argument `above`.
use litime_timescaledb_inser.Prelude.{ℕ, Result, ok, err, if◌then◌else◌}
use litime_timescaledb_inser.Strings.{Text, codes, text_eq, to_lower}

pub data SlogLevel : Type 0 where
  level_debug level_info level_warn level_error : SlogLevel

module _ (above : ℕ → ℕ) where
  -- The error has the level that is not known.
  unfoldable pub log_level_to_slog_level : Text → Result Text SlogLevel
  unfolding text_eq to_lower
  log_level_to_slog_level log_level =
      let level = to_lower above log_level in
      if text_eq level (codes "debug")
      then ok level_debug
      else if text_eq level (codes "info")
      then ok level_info
      else if text_eq level (codes "warn")
      then ok level_warn
      else if text_eq level (codes "error")
      then ok level_error
      else err log_level
