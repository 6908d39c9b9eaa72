-- ===== src/Litime/Battery/Stable.antt =====
-- The list that ParseBatteries returns: its order, and what it has to do with the iteration.
use mathlib.Core.List.{Perm, Nodup}
use mathlib.Core.List.Perm
use native.Mathlib.Nat.{ℕ_set}
use litime_timescaledb_inser.Prelude.{
  ◌≡◌, refl, sym, ap, subst, ◌∙◌, List, ◌∷◌, [], map, Option, ok,
}
use litime_timescaledb_inser.Strings.{Text, trim_space}
use litime_timescaledb_inser.Maps.{Map}
use litime_timescaledb_inser.Sorting.Laws.{
  IsSorted, sort_by-perm, sort_by-IsSorted, IsSorted-eq_of_perm,
}
use litime_timescaledb_inser.Litime.Battery.{Battery, battery_of, parse_batteries}
use litime_timescaledb_inser.Litime.Battery.Laws.{
  target, targets, parse_batteries_iff, parse_batteries-perm,
}

abbrev pub trimmed_ids : Map Text → List Text
trimmed_ids = map (λ e. trim_space e.0)

Battery-set : IsSet Battery
Battery-set = hlevel ℕ_set

module _ {Address : Type 0} (parse_address : Text → Option Address) where
  values-battery_of :
      (es : Map Text) → map (λ b. b.value) (map (battery_of parse_address) es) ≡ targets es
  unfolding battery_of
  values-battery_of [] = refl
  values-battery_of (e ∷ es) = ap (◌∷◌ (target e)) (values-battery_of es)

  ids-battery_of :
      (es : Map Text) → map (λ b. b.id) (map (battery_of parse_address) es) ≡ trimmed_ids es
  unfolding battery_of
  ids-battery_of [] = refl
  ids-battery_of (e ∷ es) = ap (◌∷◌ (trim_space e.0)) (ids-battery_of es)

  -- The returned list is in ascending order of ID, has no target twice, and its IDs are the
  -- trimmed IDs of the entries.
  pub parse_batteries-IsSorted :
      (e : Text × Text) (es : Map Text) (fallback_name : Text) (bs : List Battery)
      → parse_batteries parse_address (e ∷ es) fallback_name ≡ ok bs
      → IsSorted (λ b. b.id) bs
        × Nodup (map (λ b. b.value) bs)
        × Perm (map (λ b. b.id) bs) (trimmed_ids (e ∷ es))
  parse_batteries-IsSorted e es fallback_name bs h =
      let q = (parse_batteries_iff parse_address e es fallback_name bs).0 h in
      let all = map (battery_of parse_address) (e ∷ es) in
      let p = sort_by-perm (λ b. b.id) all in
      subst
        (λ l.
          IsSorted (λ b. b.id) l
          × Nodup (map (λ b. b.value) l)
          × Perm (map (λ b. b.id) l) (trimmed_ids (e ∷ es)))
        (sym q.1)
        (
          sort_by-IsSorted (λ b. b.id) all,
          Perm.nodup (Perm.symm (Perm.map (λ b. b.value) p))
              (subst Nodup (sym (values-battery_of (e ∷ es))) q.0.distinct),
          subst (Perm _) (ids-battery_of (e ∷ es)) (Perm.map (λ b. b.id) p),
        )

  -- If the trimmed IDs are distinct, the order of iteration over the configured map has no
  -- influence on an accepted list, its order included.
  pub parse_batteries_stable :
      (e d : Text × Text) (es ds : Map Text) (fallback_name : Text) (bs : List Battery)
      → Perm (e ∷ es) (d ∷ ds)
      → Nodup (trimmed_ids (e ∷ es))
      → parse_batteries parse_address (e ∷ es) fallback_name ≡ ok bs
      → parse_batteries parse_address (d ∷ ds) fallback_name ≡ ok bs
  parse_batteries_stable e d es ds fallback_name bs p distinct h =
      let r = parse_batteries-perm parse_address e d es ds fallback_name bs p h in
      let old = parse_batteries-IsSorted e es fallback_name bs h in
      let new = parse_batteries-IsSorted d ds fallback_name r.0 r.1 in
      r.1
      ∙ ap ok (
          sym (
            IsSorted-eq_of_perm (λ b. b.id) Battery-set bs r.0 old.0 new.0
              (Perm.nodup (Perm.symm old.2) distinct) (Perm.symm r.2)))
