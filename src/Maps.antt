-- ===== src/Maps.antt =====
-- Go's maps with string keys, as association lists. Where the program ranges over a map, the order
-- of the list is the order of that iteration, and the theorems are for every order.
use litime_timescaledb_inser.Prelude.{
  ◌≡◌, List, [], ◌∷◌, Option, none, some, if◌then◌else◌, refl, arith, ◌≢◌, inl, inr, true, false,
  ◌↔◌,
}
use litime_timescaledb_inser.Strings.{Text, text_eq}
pub mod Laws

abbrev pub Map {ℓ} : Type ℓ → Type ℓ
Map V = List (Text × V)

module _ {ℓ} {V : Type ℓ} where
  -- `v, ok := m[k]`
  unfoldable pub lookup : Text → Map V → Option V
  lookup k [] = none
  lookup k ((j, v) ∷ m) = if text_eq j k then some v else lookup k m

  -- `m[k] = v`
  unfoldable pub insert : Text → V → Map V → Map V
  insert k v [] = (k, v) ∷ []
  insert k v ((key, old) ∷ rest) =
      if text_eq key k then (k, v) ∷ rest else (key, old) ∷ insert k v rest

  -- The keys, in the order of iteration.
  abbrev pub keys : Map V → List Text
  keys [] = []
  keys ((k, v) ∷ m) = k ∷ keys m
