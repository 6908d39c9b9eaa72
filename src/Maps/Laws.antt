-- ===== src/Maps/Laws.antt =====
-- Laws of lookup and insert.
use mathlib.Core.Logic.Or
use mathlib.Core.List.{Mem, mem-cons, not-mem-nil}
use mathlib.Core.HLevel.{⊥_prop}
use litime_timescaledb_inser.Prelude.{
  ◌≡◌, refl, sym, ◌≢◌, inl, inr, [], ◌∷◌, none, some, arith, if◌then◌else◌, Bool-cases,
}
use litime_timescaledb_inser.Strings.{Text, text_eq}
use litime_timescaledb_inser.Strings.Laws.{text_eq_iff, text_eq_refl, text_eq_ne}
use litime_timescaledb_inser.Maps.{Map, lookup, insert, keys}

module _ {ℓ} {V : Type ℓ} where
  pub lookup-insert :
      (key wanted : Text) (value : V) (m : Map V)
      → lookup wanted (insert key value m)
        ≡ (if text_eq key wanted then some value else lookup wanted m)
  unfolding lookup insert
  lookup-insert key wanted value [] = refl
  lookup-insert key wanted value ((other, old) ∷ rest) = ground (
    arith,
    lookup-insert key wanted value rest,
    text_eq_iff other wanted,
    text_eq_iff other key,
    text_eq_iff key wanted,
    text_eq_refl key,
  )

  pub lookup-insert_self : (k : Text) (v : V) (m : Map V) → lookup k (insert k v m) ≡ some v
  lookup-insert_self k v m = rw (lookup-insert k k v m, text_eq_refl k)

  pub lookup-insert_ne :
      (k j : Text) (v : V) (m : Map V) → k ≢ j → lookup j (insert k v m) ≡ lookup j m
  lookup-insert_ne k j v m h = rw (lookup-insert k j v m, text_eq_ne k j h)

  -- A key that is bound is among the keys, and the other way round.
  pub mem-keys_of_lookup : (k : Text) (m : Map V) (v : V) → lookup k m ≡ some v → Mem k (keys m)
  unfolding lookup
  mem-keys_of_lookup k [] v h = cc
  mem-keys_of_lookup k ((j, w) ∷ m) v h = elim (Bool-cases (text_eq j k)) [
    | inl e ↦ subst_head ((text_eq_iff j k).0 e)
    | inr e ↦ mem-cons.1 (Or.inr (mem-keys_of_lookup k m v (ground arith)))
  ]
    where
      subst_head : j ≡ k → Mem k (j ∷ keys m)
      subst_head e = mem-cons.1 (Or.inl (sym e))

  pub not-mem-keys : (k : Text) (m : Map V) → lookup k m ≡ none → ¬ Mem k (keys m)
  unfolding lookup
  not-mem-keys k [] h p = not-mem-nil p
  not-mem-keys k ((j, w) ∷ m) h p = elim (Bool-cases (text_eq j k)) [
    | inl e ↦ absurd (ground arith)
    | inr e ↦
        Or.elim ⊥_prop (mem-cons.0 p) (λ q. ground (arith, text_eq_iff j k))
          (not-mem-keys k m (ground arith))
  ]
