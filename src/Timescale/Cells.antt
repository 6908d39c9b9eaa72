-- ===== src/Timescale/Cells.antt =====
-- mapCellVoltages keeps every cell.
use litime_timescaledb_inser.Prelude.{
  ℕ, zero, suc, ◌+◌, ◌-◌, ◌*◌, ◌/◌, ◌%◌, ◌≤◌, ◌<◌, ◌≡◌, ◌≢◌, refl, sym, ap, subst, ◌∙◌, List, [],
  ◌∷◌, ◌++◌, Option, none, some, get_elem?, arith,
}
use litime_timescaledb_inser.Strings.{Text}
use litime_timescaledb_inser.Maps.{Map, lookup, insert}
use litime_timescaledb_inser.Maps.Laws.{lookup-insert_ne, lookup-insert_self}
use litime_timescaledb_inser.Timescale.{digits, decimal, cell_name, add_cells, map_cell_voltages}

-- The number that a list of digits stands for, from the value of what is in front of it on.
abbrev value_from : ℕ → Text → ℕ
value_from acc [] = acc
value_from acc (c ∷ s) = value_from (10 * acc + (c - 48)) s

value_from-snoc :
    (acc : ℕ) (s : Text) (c : ℕ) → value_from acc (s ++ c ∷ []) ≡ 10 * value_from acc s + (c - 48)
value_from-snoc acc [] c = refl
value_from-snoc acc (d ∷ s) c = value_from-snoc (10 * acc + (d - 48)) s c

-- The digits read back.
value_from-digits : (fuel n : ℕ) → n ≤ fuel → value_from 0 (digits fuel n) ≡ n
unfolding digits
value_from-digits zero n h = omega arith
value_from-digits (suc fuel) n h =
    ground (
      arith,
      value_from-snoc 0 (digits fuel (n / 10)) (48 + n % 10),
      value_from-digits fuel (n / 10),
    )

decimal-inj : (m n : ℕ) → decimal m ≡ decimal n → m ≡ n
decimal-inj m n h =
    sym (value_from-digits m m (omega arith))
    ∙ ap (value_from 0) h
    ∙ value_from-digits n n (omega arith)

-- The names of different cells differ.
cell_name-inj : (i j : ℕ) → cell_name i ≡ cell_name j → i ≡ j
cell_name-inj i j h = decimal-inj i j (ap drop_prefix h)
  where
    drop_prefix : Text → Text
    drop_prefix (c ∷ d ∷ e ∷ f ∷ g ∷ s) = s
    drop_prefix s = s

module _ {F : Type 0} where
  -- The value, or what the map had.
  abbrev or_else : Option F → Option F → Option F
  or_else none o = o
  or_else (some v) o = some v

  or_else-none : (o : Option F) → or_else o none ≡ o
  or_else-none none = refl
  or_else-none (some v) = refl

  lookup-insert_cell :
      (i j : ℕ) (v : F) (m : Map F)
      → i ≢ j
      → lookup (cell_name i) (insert (cell_name j) v m) ≡ lookup (cell_name i) m
  lookup-insert_cell i j v m n =
      lookup-insert_ne (cell_name j) (cell_name i) v m (λ h. n (cell_name-inj i j (sym h)))

  -- The cells from j on leave the entries of the cells before them.
  lookup-add_cells_lt :
      (i j : ℕ) (vs : List F) (m : Map F)
      → i < j
      → lookup (cell_name i) (add_cells j vs m) ≡ lookup (cell_name i) m
  unfolding add_cells
  lookup-add_cells_lt i j [] m h = refl
  lookup-add_cells_lt i j (v ∷ vs) m h =
      lookup-add_cells_lt i (suc j) vs (insert (cell_name j) v m) (omega arith)
      ∙ lookup-insert_cell i j v m (λ e. omega arith)

  lookup-add_cells :
      (i j k : ℕ) (vs : List F) (m : Map F)
      → i ≡ j + k
      → lookup (cell_name i) (add_cells j vs m) ≡ or_else (get_elem? vs k) (lookup (cell_name i) m)
  unfolding add_cells
  lookup-add_cells i j k [] m e = refl
  lookup-add_cells i j zero (v ∷ vs) m e =
      lookup-add_cells_lt i (suc j) vs (insert (cell_name j) v m) (omega arith)
      ∙ subst (λ n. lookup (cell_name i) (insert (cell_name n) v m) ≡ some v) {x = i} {y = j}
          (omega arith) (lookup-insert_self (cell_name i) v m)
  lookup-add_cells i j (suc k) (v ∷ vs) m e =
      lookup-add_cells i (suc j) k vs (insert (cell_name j) v m) (omega arith)
      ∙ ap (or_else (get_elem? vs k)) (lookup-insert_cell i j v m (λ q. omega arith))

  -- The entry of each cell's name is that cell's voltage, and there is none for a cell that the
  -- battery does not have.
  pub map_cell_voltages_lem :
      (vs : List F) (i : ℕ) → lookup (cell_name i) (map_cell_voltages vs) ≡ get_elem? vs i
  unfolding map_cell_voltages lookup
  map_cell_voltages_lem vs i =
      lookup-add_cells i 0 i vs [] (omega arith) ∙ or_else-none (get_elem? vs i)
