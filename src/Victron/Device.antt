-- ===== src/Victron/Device.antt =====
-- internal/victron/device.go: the device list from the configuration. The Bluetooth library's
-- address parser and printer and the Victron library's key parser are arguments; so is `above`, the
-- upper case of the runes from 128 on.
use litime_timescaledb_inser.Prelude.{
  ℕ, List, [], ◌∷◌, ◌++◌, Option, none, some, Result, ok, err, ◌>>=◌, if◌then◌else◌, is_empty,
}
use litime_timescaledb_inser.Strings.{Text, trim_space, to_upper}
use litime_timescaledb_inser.Maps.{Map, lookup, insert}
use litime_timescaledb_inser.Sorting.{sort_by}
pub mod Laws
pub mod Config
mod Tests

pub record Device (Key : Type 0) : Type 0 where
  pub id : Text
  pub address : Text
  pub key : Key

-- One constructor for each error that ParseDevices makes, with the values in its message.
pub data DeviceError : Type 0 where
  empty_id : DeviceError
  no_address : Text → DeviceError
  bad_address : Text → DeviceError
  no_key : Text → DeviceError
  bad_key : Text → DeviceError
  same_address : Text → Text → Text → DeviceError
  orphaned_key : Text → DeviceError

-- `err` of a library call, wrapped.
abbrev pub or_fail {ℓ} : {A : Type ℓ} → Option A → DeviceError → Result DeviceError A
or_fail none e = err e
or_fail (some a) e = ok a

-- The loop over the keys.
unfoldable pub check_keys : Map Text → Map Text → Result DeviceError (Unit {0})
check_keys addresses [] = ok tt
check_keys addresses ((id, _) ∷ keys) =
    or_fail (lookup (trim_space id) addresses) (orphaned_key id) >>= λ _. check_keys addresses keys

module _ {Address Key : Type 0} (above : ℕ → ℕ) (parse_address : Text → Option Address)
    (address_string : Address → Text) (parse_key : Text → Option Key) where
  -- The body of the loop over the addresses, up to the test for duplicates.
  unfoldable pub device_of : Map Text → Text × Text → Result DeviceError (Device Key)
  device_of keys (id, address) =
      if is_empty (trim_space id)
      then err empty_id
      else if is_empty (trim_space address)
      then err (no_address (trim_space id))
      else (do
        parsed ← or_fail (parse_address (trim_space address)) (bad_address (trim_space id))
        raw_key ← or_fail (lookup (trim_space id) keys) (no_key (trim_space id))
        key ← or_fail (parse_key (trim_space raw_key)) (bad_key (trim_space id))
        ok (record {
          id = trim_space id;
          address = to_upper above (address_string parsed);
          key = key;
        }))

  -- The test for duplicates and what follows it, with the map `seen` and the list `devices`.
  unfoldable pub parse_entries :
      Map Text → Map Text → Map Text → List (Device Key) → Result DeviceError (List (Device Key))
  unfolding device_of
  parse_entries keys [] seen devices = ok devices
  parse_entries keys (entry ∷ entries) seen devices = device_of keys entry >>= λ d.
      elim (lookup d.address seen) [
        | some previous ↦ err (same_address previous d.id d.address)
        | none ↦ parse_entries keys entries (insert d.address d.id seen) (devices ++ d ∷ [])
      ]

  unfoldable pub parse_devices : Map Text → Map Text → Result DeviceError (List (Device Key))
  unfolding parse_entries check_keys
  parse_devices [] keys = ok []
  parse_devices (entry ∷ entries) keys = do
    devices ← parse_entries keys (entry ∷ entries) [] []
    done ← check_keys (entry ∷ entries) keys
    ok (sort_by (λ d. d.id) devices)
