-- ===== src/Sorting/Laws.antt =====
-- The sorted list is a rearrangement in ascending order, and with distinct keys there is only one.
use mathlib.Core.List.{
  Mem, Perm, Nodup, Nodup-cons, mem-cons, mem-cons_self, mem-map_of_mem, not-mem-nil,
}
use mathlib.Core.List.Perm
use mathlib.Core.Path.{ap₂}
use mathlib.Core.Logic.Or
use litime_timescaledb_inser.Prelude.{
  ◌≡◌, sym, subst, inl, inr, false, List, [], ◌∷◌, map, arith, Bool-cases,
}
use litime_timescaledb_inser.Strings.{Text, text_lt}
use litime_timescaledb_inser.Strings.Laws.{
  text_lt_asymm, text_lt_irrefl, text_lt_trans, text_lt_total,
}
use litime_timescaledb_inser.Sorting.{insert_sorted, sort_by}

module _ {ℓ} {A : Type ℓ} (key : A → Text) where
  -- No element has a smaller key than the one before it.
  abbrev pub IsSorted : List A → Type 0
  IsSorted [] = Unit
  IsSorted (x ∷ []) = Unit
  IsSorted (x ∷ y ∷ ys) = (text_lt (key y) (key x) ≡ false) × IsSorted (y ∷ ys)

  insert_sorted-perm : (x : A) (ys : List A) → Perm (insert_sorted key x ys) (x ∷ ys)
  unfolding insert_sorted
  insert_sorted-perm x [] = Perm.rfl
  insert_sorted-perm x (y ∷ ys) = elim (Bool-cases (text_lt (key y) (key x))) [
    | inl e ↦ rw e (Perm.trans (Perm.cons y (insert_sorted-perm x ys)) (Perm.swap x y ys))
    | inr e ↦ rw e Perm.rfl
  ]

  pub sort_by-perm : (xs : List A) → Perm (sort_by key xs) xs
  unfolding sort_by
  sort_by-perm [] = Perm.rfl
  sort_by-perm (x ∷ xs) =
      Perm.trans (insert_sorted-perm x (sort_by key xs)) (Perm.cons x (sort_by-perm xs))

  insert_sorted-IsSorted : (x : A) (ys : List A) → IsSorted ys → IsSorted (insert_sorted key x ys)
  unfolding insert_sorted
  insert_sorted-IsSorted x [] h = tt
  insert_sorted-IsSorted x (y ∷ []) h = ground (arith, text_lt_asymm (key y) (key x))
  insert_sorted-IsSorted x (y ∷ z ∷ zs) h = ground (
    arith,
    text_lt_asymm (key y) (key x),
    text_lt_asymm (key z) (key x),
    insert_sorted-IsSorted x (z ∷ zs),
  )

  pub sort_by-IsSorted : (xs : List A) → IsSorted (sort_by key xs)
  unfolding sort_by
  sort_by-IsSorted [] = tt
  sort_by-IsSorted (x ∷ xs) = insert_sorted-IsSorted x (sort_by key xs) (sort_by-IsSorted xs)

  -- "not greater" is transitive.
  le_trans : (x y z : Text) → text_lt y x ≡ false → text_lt z y ≡ false → text_lt z x ≡ false
  le_trans x y z h k = elim (Bool-cases (text_lt z x)) [
    | inl e ↦ elim (Bool-cases (text_lt x y)) [
      | inl f ↦ cc (k, text_lt_trans z x y e f)
      | inr f ↦ cc (k, text_lt_total x y f h)
    ]
    | inr e ↦ e
  ]

  IsSorted-head :
      (x y : A) (l : List A) → IsSorted (x ∷ l) → Mem y l → text_lt (key y) (key x) ≡ false
  IsSorted-head x y [] s m = absurd (not-mem-nil m)
  IsSorted-head x y (z ∷ l) s m =
      Or.elim (hlevel) (mem-cons.0 m) (λ q. rw q s.0)
        (λ k. le_trans (key x) (key z) (key y) s.0 (IsSorted-head z y l s.1 k))

  IsSorted-tail : (x : A) (l : List A) → IsSorted (x ∷ l) → IsSorted l
  IsSorted-tail x [] s = tt
  IsSorted-tail x (y ∷ l) s = s.1

  head_le :
      (a b : A) (l r : List A)
      → IsSorted (a ∷ l)
      → Perm (b ∷ r) (a ∷ l)
      → text_lt (key b) (key a) ≡ false
  head_le a b l r s p =
      Or.elim (hlevel) (mem-cons.0 ((Perm.mem_iff p).0 mem-cons_self))
        (λ q. rw q (text_lt_irrefl (key a))) (IsSorted-head a b l s)

  heads_eq :
      (setA : IsSet A) (a b : A) (l r : List A)
      → IsSorted (a ∷ l)
      → IsSorted (b ∷ r)
      → Nodup (map key (a ∷ l))
      → Perm (b ∷ r) (a ∷ l)
      → a ≡ b
  heads_eq setA a b l r sl sr d p =
      Or.elim (setA a b) (mem-cons.0 ((Perm.mem_iff p).0 mem-cons_self)) (λ q. sym q)
        (λ m.
          absurd ((Nodup-cons.0 d).0 (subst (λ k. Mem k (map key l)) same (mem-map_of_mem key m))))
    where
      same : key b ≡ key a
      same = text_lt_total (key b) (key a) (head_le a b l r sl p) (head_le b a r l sr (Perm.symm p))

  -- With distinct keys there is one ascending arrangement.
  pub IsSorted-eq_of_perm :
      IsSet A → (l r : List A) → IsSorted l → IsSorted r → Nodup (map key l) → Perm r l → l ≡ r
  IsSorted-eq_of_perm setA [] r sl sr d p = sym (Perm.eq-nil p)
  IsSorted-eq_of_perm setA (a ∷ l) [] sl sr d p = sym (Perm.nil-eq p)
  IsSorted-eq_of_perm setA (a ∷ l) (b ∷ r) sl sr d p =
      let q = heads_eq setA a b l r sl sr d p in
      let tails = Perm.cons_inv (Perm.trans (Perm.cons' q Perm.rfl) p) in
      ap₂ ◌∷◌ q (
        IsSorted-eq_of_perm setA l r (IsSorted-tail a l sl) (IsSorted-tail b r sr)
          (Nodup-cons.0 d).1 tails)
