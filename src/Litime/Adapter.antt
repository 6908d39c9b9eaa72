-- ===== src/Litime/Adapter.antt =====
-- internal/litime/adapter_linux.go and adapter_other.go. The Bluetooth library's default adapter
-- and its constructor by name are arguments.
use litime_timescaledb_inser.Prelude.{Result, ok, err, if◌then◌else◌, is_empty}
use litime_timescaledb_inser.Strings.{Text}

-- The build tag.
pub data Platform : Type 0 where
  linux other : Platform

pub data AdapterError : Type 0 where
  only_on_linux : Text → AdapterError

module _ {Adapter : Type 0} (default_adapter : Adapter) (new_adapter : Text → Adapter) where
  unfoldable pub resolve_adapter_linux : Text → Result AdapterError Adapter
  resolve_adapter_linux name = if is_empty name then ok default_adapter else ok (new_adapter name)

  unfoldable pub resolve_adapter_other : Text → Result AdapterError Adapter
  resolve_adapter_other name =
      if is_empty name then ok default_adapter else err (only_on_linux name)

  unfoldable pub resolve_adapter : Platform → Text → Result AdapterError Adapter
  unfolding resolve_adapter_linux resolve_adapter_other
  resolve_adapter linux = resolve_adapter_linux
  resolve_adapter other = resolve_adapter_other
