-- ===== src/Litime/Battery.antt =====
-- internal/litime/battery.go: the battery list from the configuration. The library's address
-- parser is the argument `parse_address`, with its addresses `Address`; of its errors the program
-- uses only that there is one.
use litime_timescaledb_inser.Prelude.{
  List, [], ◌∷◌, ◌++◌, Option, none, some, Result, ok, err, if◌then◌else◌, is_empty,
}
use litime_timescaledb_inser.Strings.{Text, trim_space}
use litime_timescaledb_inser.Maps.{Map, lookup, insert}
use litime_timescaledb_inser.Sorting.{sort_by}
pub mod Laws
pub mod Stable
pub mod Sharing
mod Tests

pub data MatchKind : Type 0 where
  match_address match_name : MatchKind

pub record Battery : Type 0 where
  pub id : Text
  pub match : MatchKind
  pub value : Text

-- One constructor for each error that ParseBatteries makes, with the values in its message.
pub data BatteryError : Type 0 where
  no_batteries : BatteryError
  empty_id : BatteryError
  no_target : Text → BatteryError
  duplicate : Text → Text → Text → BatteryError

unfoldable pub sorted_entries :
    Result BatteryError (List Battery) → Result BatteryError (List Battery)
sorted_entries (ok batteries) = ok (sort_by (λ b. b.id) batteries)
sorted_entries (err e) = err e

-- The single battery of the older configuration.
unfoldable pub fallback : Text → Result BatteryError (List Battery)
fallback name =
    if is_empty name
    then err no_batteries
    else ok (record { id = name; match = match_name; value = name } ∷ [])

module _ {Address : Type 0} (parse_address : Text → Option Address) where
  unfoldable pub classify : Text → MatchKind
  classify value = elim (parse_address value) [ some _ ↦ match_address | none ↦ match_name ]

  -- What the loop makes of an accepted entry.
  unfoldable pub battery_of : Text × Text → Battery
  battery_of (id, value) = record {
    id = trim_space id;
    match = classify (trim_space value);
    value = trim_space value;
  }

  -- The loop over the entries, with the map `seen` and the list `batteries`.
  unfoldable pub parse_entries :
      Map Text → Map Text → List Battery → Result BatteryError (List Battery)
  unfolding battery_of
  parse_entries [] seen batteries = ok batteries
  parse_entries ((id, value) ∷ entries) seen batteries =
      let rest =
        parse_entries entries (insert (trim_space value) (trim_space id) seen)
          (batteries ++ battery_of (id, value) ∷ []) in
      if is_empty (trim_space id)
      then err empty_id
      else if is_empty (trim_space value)
      then err (no_target (trim_space id))
      else elim (lookup (trim_space value) seen) [
        | some previous ↦ err (duplicate previous (trim_space id) (trim_space value))
        | none ↦ rest
      ]

  unfoldable pub parse_batteries : Map Text → Text → Result BatteryError (List Battery)
  unfolding fallback sorted_entries parse_entries
  parse_batteries [] fallback_name = fallback fallback_name
  parse_batteries (entry ∷ entries) fallback_name =
      sorted_entries (parse_entries (entry ∷ entries) [] [])
