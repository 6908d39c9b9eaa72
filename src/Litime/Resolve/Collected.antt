-- ===== src/Litime/Resolve/Collected.antt =====
-- What the first loop of resolveAddresses has collected comes from the batteries.
use mathlib.Core.List.{Mem, Memᴰ}
use mathlib.Core.List.Memᴰ
use mathlib.Core.Logic.{∥∥₁_map}
use litime_timescaledb_inser.Prelude.{
  ◌≡◌, refl, sym, ap, subst, ◌⊎◌, inl, inr, List, [], ◌∷◌, Option, some, ok, err, ok-injective,
  arith, Bool-cases, Option-cases,
}
use litime_timescaledb_inser.Strings.{Text, text_eq}
use litime_timescaledb_inser.Strings.Laws.{text_eq_iff}
use litime_timescaledb_inser.Maps.{Map, lookup, insert}
use litime_timescaledb_inser.Maps.Laws.{lookup-insert}
use litime_timescaledb_inser.Litime.Battery.{Battery, MatchKind, match_address, match_name}
use litime_timescaledb_inser.Litime.Resolve.{
  ResolveError, Targets, entries_of, append_entry, add_name, collect,
}

module _ {V : Type 0} where
  -- What is in a map behind an insertion was inserted, or was in it before.
  mem-insert :
      (e : Text × V) (k : Text) (v : V) (m : Map V)
      → Memᴰ e (insert k v m)
      → (e ≡ (k, v)) ⊎ Memᴰ e m
  unfolding insert
  mem-insert e k v [] p = Memᴰ.cases_cons p
  mem-insert e k v ((j, w) ∷ m) p = elim (Bool-cases (text_eq j k)) [
    | inl q ↦ elim (Memᴰ.cases_cons (rw (q, insert) at p)) [
      | inl r ↦ inl r
      | inr r ↦ inr (Memᴰ.tail r)
    ]
    | inr q ↦ elim (Memᴰ.cases_cons (rw (q, insert) at p)) [
      | inl r ↦ inr (Memᴰ.head r)
      | inr r ↦ elim (mem-insert e k v m r) [ inl s ↦ inl s | inr s ↦ inr (Memᴰ.tail s) ]
    ]
  ]

  -- A value that is looked up is in the map.
  mem_of_lookup : (k : Text) (m : Map V) (v : V) → lookup k m ≡ some v → Memᴰ (k, v) m
  unfolding lookup
  mem_of_lookup k [] v h = cc
  mem_of_lookup k ((j, w) ∷ m) v h = elim (Bool-cases (text_eq j k)) [
    | inl q ↦
        Memᴰ.head (pair (sym ((text_eq_iff j k).0 q)) (some-injective (sym (rw (q, lookup) at h))))
    | inr q ↦ Memᴰ.tail (mem_of_lookup k m v (rw (q, lookup) at h))
  ]
    where
      pair : k ≡ j → v ≡ w → ◌≡◌ {A = Text × V} (k, v) (j, w)
      pair e f = cc

      some-injective : some v ≡ some w → v ≡ w
      some-injective e = cc

-- The same for a map of slices, of which an absent one is empty.
mem_of_entries :
    {V : Type 0} (k : Text) (m : Map (List V)) (v : V)
    → Memᴰ v (entries_of k m)
    → Memᴰ (k, entries_of k m) m
unfolding entries_of
mem_of_entries k m v p = elim (Option-cases (lookup k m)) [
  | inl e ↦ absurd (Memᴰ.not-nil (rw (e, entries_of) at p))
  | inr (vs, e) ↦ rw (e, entries_of) (mem_of_lookup k m vs e)
]

module _ {Address : Type 0} (parse_address : Text → Option Address) (batteries : List Battery) where
  -- A battery that is found by its address has this address.
  pub record ByAddress (id : Text) (address : Address) : Type 0 where
    pub battery : Battery
    pub configured : Mem battery batteries
    pub same_id : battery.id ≡ id
    pub by_address : battery.match ≡ match_address
    pub parses : parse_address battery.value ≡ some address

  -- A battery that is found by its name has this name.
  pub record ByName (id name : Text) : Type 0 where
    pub battery : Battery
    pub configured : Mem battery batteries
    pub same_id : battery.id ≡ id
    pub by_name : battery.match ≡ match_name
    pub same_name : battery.value ≡ name

  -- What the loop over the batteries has collected comes from them.
  pub record IsTraced (t : Targets Address) : Type 0 where
    pub addresses :
        (id : Text) (address : Address) → lookup id t.resolved ≡ some address → ByAddress id address
    pub names :
        (id name : Text) (ids : List Text)
        → Memᴰ (name, ids) t.by_name
        → Memᴰ id ids
        → ByName id name

  module _ (id value : Text) (t : Targets Address) (v : IsTraced t) where
    address-IsTraced :
        (address : Address)
        → Mem (record { id = id; match = match_address; value = value }) batteries
        → parse_address value ≡ some address
        → IsTraced (record t { resolved = insert id address t.resolved })
    address-IsTraced address p e = record {
      addresses = λ j a h. elim (Bool-cases (text_eq id j)) [
        | inl q ↦ record {
          battery = record { id = id; match = match_address; value = value };
          configured = p;
          same_id = (text_eq_iff id j).0 q;
          by_address = refl;
          parses = ground (arith, lookup-insert id j address t.resolved, e, h, q);
        }
        | inr q ↦ v.addresses j a (ground (arith, lookup-insert id j address t.resolved))
      ];
      names = v.names;
    }

    name-IsTraced :
        Mem (record { id = id; match = match_name; value = value }) batteries
        → IsTraced (add_name t (record { id = id; match = match_name; value = value }))
    unfolding add_name append_entry
    name-IsTraced p = record {
      addresses = v.addresses;
      names = λ j name ids m n. elim (mem-insert (name, ids) value _ t.by_name m) [
        | inr q ↦ v.names j name ids q n
        | inl q ↦
            elim (Memᴰ.append_cases (entries_of value t.by_name)
              (subst (Memᴰ j) (ap (λ x. x.1) q) n)) [
                | inl r ↦ subst (ByName j) (sym (ap (λ x. x.0) q)) (
                    v.names j value (entries_of value t.by_name)
                      (mem_of_entries value t.by_name j r) r)
                | inr r ↦ record {
                  battery = record { id = id; match = match_name; value = value };
                  configured = p;
                  same_id = sym (Memᴰ.eq_of_singleton r);
                  by_name = refl;
                  same_name = sym (ap (λ x. x.0) q);
                }
              ]
      ];
    }

  -- One turn of the loop, and what follows it.
  turn-IsTraced :
      (id : Text) (k : MatchKind) (value : Text) (bs : List Battery) (t out : Targets Address)
      → IsTraced t
      → Mem (record { id = id; match = k; value = value }) batteries
      → ((t : Targets Address) → IsTraced t → collect parse_address bs t ≡ ok out → IsTraced out)
      → collect parse_address (record { id = id; match = k; value = value } ∷ bs) t ≡ ok out
      → IsTraced out
  unfolding collect
  turn-IsTraced id match_address value bs t out v p next h =
      elim (Option-cases (parse_address value)) [
        | inl e ↦ absurd (not_ok (rw (e, collect) at h))
        | inr (a, e) ↦ next _ (address-IsTraced id value t v a p e) (rw (e, collect) at h)
      ]
    where
      not_ok : {e : ResolveError} → ¬ (err e ≡ ok out)
      not_ok q = cc
  turn-IsTraced id match_name value bs t out v p next h = next _ (name-IsTraced id value t v p) h

  pub collect-IsTraced :
      (bs : List Battery) (t out : Targets Address)
      → ((b : Battery) → Mem b bs → Mem b batteries)
      → IsTraced t
      → collect parse_address bs t ≡ ok out
      → IsTraced out
  unfolding collect
  collect-IsTraced [] t out m v h = subst IsTraced (ok-injective h) v
  collect-IsTraced (b ∷ bs) t out m v h =
      turn-IsTraced b.id b.match b.value bs t out v (m b ∣ Memᴰ.head refl ∣₁)
        (λ u w k. collect-IsTraced bs u out (λ c q. m c (∥∥₁_map q Memᴰ.tail)) w k) h
