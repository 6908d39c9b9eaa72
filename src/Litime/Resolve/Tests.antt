-- ===== src/Litime/Resolve/Tests.antt =====
-- A run of resolveAddresses, and the theorem on its scan at concrete devices. Addresses are numbers.
use mathlib.Core.List.Perm
use litime_timescaledb_inser.Prelude.{ℕ, ◌≡◌, ◌⊎◌, refl, List, [], ◌∷◌, Option, none, some, ok, err}
use litime_timescaledb_inser.Strings.{Text, codes, text_eq}
use litime_timescaledb_inser.Maps.{Map, lookup, insert}
use litime_timescaledb_inser.Litime.Battery.{Battery, match_name, match_address}
use litime_timescaledb_inser.Litime.Resolve.{
  Discovered, ambiguous, entries_of, append_entry, group_devices, assign_ids, assign_names,
  add_name, resolve_addresses,
}
use litime_timescaledb_inser.Litime.Resolve.Collected.{ByAddress}
use litime_timescaledb_inser.Litime.Resolve.Attributed.{Found, resolve_addresses_traced}

abbrev device : Text → ℕ → Discovered ℕ
device name address = record { name = name; address = address }

abbrev devices : List (Discovered ℕ)
devices = device (codes "one") 1 ∷ device (codes "other") 2 ∷ []

abbrev by_name : Map (List Text)
by_name = (codes "one", codes "attic" ∷ []) ∷ []

assigns : assign_names (group_devices devices []) by_name [] ≡ ok ((codes "attic", 1) ∷ [])
unfolding assign_names group_devices append_entry entries_of assign_ids insert lookup text_eq
assigns = refl

abbrev attic : Battery
attic = record { id = codes "attic"; match = match_name; value = codes "one" }

-- Two devices with the battery's name cannot be told apart.
refuses_two :
    resolve_addresses {Address = ℕ}
      (λ s. none)
      (λ names. some (device (codes "one") 1 ∷ device (codes "one") 2 ∷ []))
      (λ m. m)
      (attic ∷ [])
    ≡ err (ambiguous 2 (codes "one"))
unfolding resolve_addresses assign_names group_devices append_entry entries_of assign_ids insert
    lookup text_eq add_name
refuses_two = refl

abbrev garage : Battery
garage = record { id = codes "garage"; match = match_address; value = codes "A" }

abbrev scan : List Text → Option (List (Discovered ℕ))
scan names = some devices

resolves :
    resolve_addresses {Address = ℕ} (λ s. some 7) scan (λ m. m) (attic ∷ garage ∷ [])
    ≡ ok ((codes "garage", 7) ∷ (codes "attic", 1) ∷ [])
unfolding resolve_addresses assign_names group_devices append_entry entries_of assign_ids insert
    lookup text_eq add_name
resolves = refl

given : lookup {V = ℕ} (codes "attic") ((codes "garage", 7) ∷ (codes "attic", 1) ∷ []) ≡ some 1
unfolding lookup text_eq
given = refl

resolve_addresses_traced_example :
    ∥ ByAddress {Address = ℕ} (λ s. some 7) (attic ∷ garage ∷ []) (codes "attic") 1
      ⊎ Found {Address = ℕ} (λ s. some 7) (attic ∷ garage ∷ []) scan (λ m. m) (codes "attic") 1 ∥₁
resolve_addresses_traced_example =
    resolve_addresses_traced (λ s. some 7) scan (λ m. m) (attic ∷ garage ∷ [])
      ((codes "garage", 7) ∷ (codes "attic", 1) ∷ []) (codes "attic") 1 (λ m. Perm.refl m) resolves
      given
