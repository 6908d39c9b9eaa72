-- ===== src/Litime/Battery/Tests.antt =====
-- Runs of ParseBatteries, and its theorems at concrete configurations. The address parser stands
-- for one that takes texts of seventeen characters, in either case of the letters.
use mathlib.Core.List.{Nodup, Nodup-cons, Nodup-nil, not-mem-nil, mem-cons}
use mathlib.Core.Logic.Or
use mathlib.Core.List.Perm
use litime_timescaledb_inser.Prelude.{
  ◌≡◌, refl, ◌↔◌, ◌==◌, List, ◌∷◌, [], map, Option, some, none, ok, err, length, All, if◌then◌else◌,
}
use litime_timescaledb_inser.Strings.{Text, codes, trim_space, to_upper, text_eq, text_lt}
use litime_timescaledb_inser.Strings.Laws.{ne_of_text_eq}
use litime_timescaledb_inser.Maps.{lookup, insert}
use litime_timescaledb_inser.Sorting.{sort_by}
use litime_timescaledb_inser.Litime.Battery.{
  Battery, match_address, match_name, no_batteries, empty_id, duplicate, battery_of, classify,
  parse_batteries,
}
use litime_timescaledb_inser.Litime.Battery.Laws.{IsAcceptable, parse_batteries_iff}
use litime_timescaledb_inser.Litime.Battery.Stable.{trimmed_ids, parse_batteries_stable}
use litime_timescaledb_inser.Litime.Battery.Sharing.{
  parse_batteries_shared_id, parse_batteries_shared_address,
}

abbrev mac : Text → Option Text
mac s = if length s == 17 then some (to_upper (λ c. c) s) else none

abbrev upper_mac : Text
upper_mac = codes "11:22:33:AA:BB:CC"

abbrev lower_mac : Text
lower_mac = codes "11:22:33:aa:bb:cc"

abbrev garage : Text × Text
garage = (codes "  garage ", codes " battery-one  ")

abbrev attic : Text × Text
attic = (codes "attic", upper_mac)

abbrev garage_battery : Battery
garage_battery = record { id = codes "garage"; match = match_name; value = codes "battery-one" }

abbrev attic_battery : Battery
attic_battery = record { id = codes "attic"; match = match_address; value = upper_mac }

sorts_and_trims :
    parse_batteries mac (garage ∷ attic ∷ []) [] ≡ ok (attic_battery ∷ garage_battery ∷ [])
unfolding parse_batteries trim_space sort_by text_lt text_eq classify battery_of lookup insert
    to_upper
sorts_and_trims = refl

falls_back :
    parse_batteries mac [] (codes "LiTime Battery")
    ≡ ok (
        record { id = codes "LiTime Battery"; match = match_name; value = codes "LiTime Battery" }
        ∷ [])
unfolding parse_batteries
falls_back = refl

nothing_configured : parse_batteries mac [] [] ≡ err no_batteries
unfolding parse_batteries
nothing_configured = refl

white_id : parse_batteries mac ((codes "   ", upper_mac) ∷ []) [] ≡ err empty_id
unfolding parse_batteries trim_space
white_id = refl

same_target :
    parse_batteries mac ((codes "shed", upper_mac) ∷ attic ∷ []) []
    ≡ err (duplicate (codes "shed") (codes "attic") upper_mac)
unfolding parse_batteries trim_space text_eq lookup insert
same_target = refl

abbrev both : List Battery
both = attic_battery ∷ garage_battery ∷ []

parse_batteries_iff_example : (parse_batteries mac (garage ∷ attic ∷ []) [] ≡ ok both) ↔ (
    IsAcceptable (garage ∷ attic ∷ [])
    × (both ≡ sort_by (λ b. b.id) (map (battery_of mac) (garage ∷ attic ∷ []))))
parse_batteries_iff_example = parse_batteries_iff mac garage (attic ∷ []) [] both

distinct_ids : Nodup (trimmed_ids (garage ∷ attic ∷ []))
unfolding trim_space
distinct_ids = Nodup-cons.1 (
  λ m. Or.elim (hlevel) (mem-cons.0 m) (λ e. cc) not-mem-nil,
  Nodup-cons.1 (not-mem-nil, Nodup-nil),
)

parse_batteries_stable_example : parse_batteries mac (attic ∷ garage ∷ []) [] ≡ ok both
parse_batteries_stable_example =
    parse_batteries_stable mac garage attic (attic ∷ []) (garage ∷ []) [] both
      (Perm.swap attic garage []) distinct_ids sorts_and_trims

parse_batteries_shared_id_example :
    (a b : Battery) × (parse_batteries mac
        ((codes "shed", codes "one") ∷ (codes " shed", codes "two") ∷ [])
        []
      ≡ ok (a ∷ b ∷ []))
    × (a.id ≡ b.id)
unfolding trim_space text_eq
parse_batteries_shared_id_example =
    parse_batteries_shared_id mac (codes "shed") (codes " shed") (codes "one") (codes "two") []
      (ne_of_text_eq _ _ refl, ne_of_text_eq _ _ refl)
      (ne_of_text_eq _ _ refl, ne_of_text_eq _ _ refl) (ne_of_text_eq _ _ refl) refl

parse_batteries_shared_address_example :
    (bs : List Battery) × (parse_batteries mac
        ((codes "a", upper_mac) ∷ (codes "b", lower_mac) ∷ [])
        []
      ≡ ok bs)
    × (length bs ≡ 2)
    × All (λ b. (b.match ≡ match_address) × (mac b.value ≡ some upper_mac)) bs
unfolding trim_space to_upper text_eq
parse_batteries_shared_address_example =
    parse_batteries_shared_address mac (codes "a") (codes "b") upper_mac lower_mac [] upper_mac
      (ne_of_text_eq _ _ refl, ne_of_text_eq _ _ refl)
      (ne_of_text_eq _ _ refl, ne_of_text_eq _ _ refl) (ne_of_text_eq _ _ refl) refl refl
