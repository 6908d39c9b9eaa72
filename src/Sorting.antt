-- ===== src/Sorting.antt =====
-- Go's sort.Slice with the order of a string field. The package says that equal elements may end
-- in any order; this sort keeps theirs.
use litime_timescaledb_inser.Prelude.{List, [], ◌∷◌, if◌then◌else◌}
use litime_timescaledb_inser.Strings.{Text, text_lt}
pub mod Laws

module _ {ℓ} {A : Type ℓ} (key : A → Text) where
  unfoldable pub insert_sorted : A → List A → List A
  insert_sorted x [] = x ∷ []
  insert_sorted x (y ∷ ys) = if text_lt (key y) (key x) then y ∷ insert_sorted x ys else x ∷ y ∷ ys

  unfoldable pub sort_by : List A → List A
  unfolding insert_sorted
  sort_by [] = []
  sort_by (x ∷ xs) = insert_sorted x (sort_by xs)
