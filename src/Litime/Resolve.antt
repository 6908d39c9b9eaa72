-- ===== src/Litime/Resolve.antt =====
-- internal/litime/manager.go: resolveAddresses. The Bluetooth library's address parser and scan are
-- the arguments `parse_address` and `scan` (the names to look for, to the devices found; `none` for
-- an error). `arrange` gives the order in which `range byName` goes through its map.
use litime_timescaledb_inser.Prelude.{
  ℕ, List, [], ◌∷◌, ◌++◌, Option, none, some, Result, ok, err, ◌>>=◌, length, is_empty,
  if◌then◌else◌,
}
use litime_timescaledb_inser.Strings.{Text}
use litime_timescaledb_inser.Maps.{Map, lookup, insert}
use litime_timescaledb_inser.Litime.Battery.{Battery, match_address, match_name}
pub mod Traced
pub mod Collected
pub mod Attributed
mod Tests

pub data ResolveError : Type 0 where
  bad_address : Text → ResolveError
  scan_failed : ResolveError
  ambiguous : ℕ → Text → ResolveError

-- What the program reads of a device that a scan found.
pub record Discovered (Address : Type 0) : Type 0 where
  pub name : Text
  pub address : Address

-- `m[k] = append(m[k], v)`: a missing key counts as the empty slice.
unfoldable pub entries_of {ℓ} : {V : Type ℓ} → Text → Map (List V) → List V
unfolding lookup
entries_of k m = elim (lookup k m) [ none ↦ [] | some vs ↦ vs ]

unfoldable pub append_entry {ℓ} : {V : Type ℓ} → Text → V → Map (List V) → Map (List V)
unfolding entries_of insert
append_entry k v m = insert k (entries_of k m ++ v ∷ []) m

-- The variables of the first loop.
pub record Targets (Address : Type 0) : Type 0 where
  pub resolved : Map Address
  pub names : List Text
  pub by_name : Map (List Text)

module _ {Address : Type 0} where
  unfoldable pub add_name : Targets Address → Battery → Targets Address
  unfolding append_entry
  add_name t b = record t {
    names = elim (lookup b.value t.by_name) [ some _ ↦ t.names | none ↦ t.names ++ b.value ∷ [] ];
    by_name = append_entry b.value b.id t.by_name;
  }

  unfoldable pub group_devices : List (Discovered Address) → Map (List Address) → Map (List Address)
  unfolding append_entry
  group_devices [] found = found
  group_devices (d ∷ ds) found = group_devices ds (append_entry d.name d.address found)

  -- `for _, id := range ids { resolved[id] = matches[0] }`
  unfoldable pub assign_ids : List Text → Address → Map Address → Map Address
  unfolding insert
  assign_ids [] a resolved = resolved
  assign_ids (id ∷ ids) a resolved = assign_ids ids a (insert id a resolved)

  -- The loop over byName, in the order of the list.
  unfoldable pub assign_names :
      Map (List Address) → Map (List Text) → Map Address → Result ResolveError (Map Address)
  unfolding entries_of assign_ids
  assign_names found [] resolved = ok resolved
  assign_names found ((name, ids) ∷ rest) resolved = elim (entries_of name found) [
    | [] ↦ assign_names found rest resolved
    | a ∷ [] ↦ assign_names found rest (assign_ids ids a resolved)
    | a ∷ b ∷ more ↦ err (ambiguous (length (a ∷ b ∷ more)) name)
  ]

  module _ (parse_address : Text → Option Address) where
    -- The loop over the batteries.
    unfoldable pub collect : List Battery → Targets Address → Result ResolveError (Targets Address)
    unfolding add_name
    collect [] t = ok t
    collect (b ∷ bs) t = elim b.match [
      | match_address ↦ elim (parse_address b.value) [
        | none ↦ err (bad_address b.id)
        | some a ↦ collect bs (record t { resolved = insert b.id a t.resolved })
      ]
      | match_name ↦ collect bs (add_name t b)
    ]

    module _ (scan : List Text → Option (List (Discovered Address)))
        (arrange : Map (List Text) → Map (List Text)) where
      unfoldable pub scan_names : Targets Address → Result ResolveError (Map Address)
      unfolding group_devices assign_names
      scan_names t = if is_empty t.names then ok t.resolved else elim (scan t.names) [
        | none ↦ err scan_failed
        | some devices ↦ assign_names (group_devices devices []) (arrange t.by_name) t.resolved
      ]

      unfoldable pub resolve_addresses : List Battery → Result ResolveError (Map Address)
      unfolding collect scan_names
      resolve_addresses batteries =
          collect batteries (record { resolved = []; names = []; by_name = [] }) >>= scan_names
