-- ===== src/Litime/Resolve/Traced.antt =====
-- Where the addresses come from that resolveAddresses finds by name.
use mathlib.Core.List.{Mem, mem-cons, append_assoc, append-nil}
use mathlib.Core.Logic.Or
use litime_timescaledb_inser.Prelude.{
  ◌≡◌, refl, sym, ap, ◌∙◌, ◌⊎◌, inl, inr, List, [], ◌∷◌, ◌++◌, some, ok, err, arith, if◌then◌else◌,
  Bool-cases,
}
use litime_timescaledb_inser.Strings.{Text, text_eq}
use litime_timescaledb_inser.Strings.Laws.{text_eq_iff}
use litime_timescaledb_inser.Maps.{Map, lookup, insert}
use litime_timescaledb_inser.Maps.Laws.{lookup-insert}
use litime_timescaledb_inser.Litime.Resolve.{
  Discovered, ResolveError, entries_of, append_entry, group_devices, assign_ids, assign_names,
}

entries_of-append_entry :
    {V : Type 0} (k j : Text) (v : V) (m : Map (List V))
    → entries_of k (append_entry j v m) ≡ entries_of k m ++ (if text_eq j k then v ∷ [] else [])
unfolding entries_of append_entry
entries_of-append_entry k j v m = elim (Bool-cases (text_eq j k)) [
  | inl e ↦ ground (arith, lookup-insert j k (entries_of j m ++ v ∷ []) m, (text_eq_iff j k).0 e)
  | inr e ↦
      ground (arith, lookup-insert j k (entries_of j m ++ v ∷ []) m, append-nil (entries_of k m))
]

module _ {Address : Type 0} where
  -- The addresses of the devices that have a name, in the order found.
  abbrev pub addresses_named : Text → List (Discovered Address) → List Address
  addresses_named k [] = []
  addresses_named k (d ∷ ds) =
      (if text_eq d.name k then d.address ∷ [] else []) ++ addresses_named k ds

  group_devices-entries :
      (k : Text) (ds : List (Discovered Address)) (m : Map (List Address))
      → entries_of k (group_devices ds m) ≡ entries_of k m ++ addresses_named k ds
  unfolding group_devices
  group_devices-entries k [] m = sym (append-nil (entries_of k m))
  group_devices-entries k (d ∷ ds) m =
      group_devices-entries k ds (append_entry d.name d.address m)
      ∙ ap (λ l. l ++ addresses_named k ds) (entries_of-append_entry k d.name d.address m)
      ∙ append_assoc (entries_of k m) _ (addresses_named k ds)

  lookup-assign_ids :
      (id : Text) (ids : List Text) (a : Address) (m : Map Address)
      → (lookup id (assign_ids ids a m) ≡ lookup id m)
        ⊎ (Mem id ids × (lookup id (assign_ids ids a m) ≡ some a))
  unfolding assign_ids
  lookup-assign_ids id [] a m = inl refl
  lookup-assign_ids id (j ∷ ids) a m = elim (lookup-assign_ids id ids a (insert j a m)) [
    | inr (p, q) ↦ inr (mem-cons.1 (Or.inr p), q)
    | inl q ↦ elim (Bool-cases (text_eq j id)) [
      | inl e ↦ inr (
        mem-cons.1 (Or.inl (sym ((text_eq_iff j id).0 e))),
        q ∙ lookup-insert j id a m ∙ rw e refl,
      )
      | inr e ↦ inl (q ∙ lookup-insert j id a m ∙ rw e refl)
    ]
  ]

  -- The ID belongs to a name that exactly one device has, and its address is that device's.
  pub record Only (devices : List (Discovered Address)) (by_name : Map (List Text)) (id : Text)
      (out : Map Address) : Type 0 where
    pub name : Text
    pub ids : List Text
    pub address : Address
    pub entry : Mem (name, ids) by_name
    pub member : Mem id ids
    pub alone : addresses_named name devices ≡ address ∷ []
    pub given : lookup id out ≡ some address

  match-cases :
      (matches : List Address)
      → (matches ≡ [])
        ⊎ (((a : Address) × (matches ≡ a ∷ []))
            ⊎ ((a : Address) × (b : Address) × (more : List Address) × (matches ≡ a ∷ b ∷ more)))
  match-cases [] = inl refl
  match-cases (a ∷ []) = inr (inl (a, refl))
  match-cases (a ∷ b ∷ more) = inr (inr (a, b, more, refl))

  err-not-ok : {e : ResolveError} {m : Map Address} → ¬ (err e ≡ ok m)
  err-not-ok h = cc

  Only-later :
      {devices : List (Discovered Address)} {by_name : Map (List Text)} {id : Text}
      {out : Map Address} (e : Text × List Text)
      → Only devices by_name id out
      → Only devices (e ∷ by_name) id out
  Only-later e o = record {
    name = o.name;
    ids = o.ids;
    address = o.address;
    entry = mem-cons.1 (Or.inr o.entry);
    member = o.member;
    alone = o.alone;
    given = o.given;
  }

  -- After a scan that is not ambiguous each ID either keeps the address that it had, or belongs to a
  -- name that exactly one of the devices found has, and gets that device's address. This holds for
  -- every order of the names.
  pub assign_names-Only :
      (devices : List (Discovered Address)) (by_name : Map (List Text)) (resolved out : Map Address)
      (id : Text)
      → assign_names (group_devices devices []) by_name resolved ≡ ok out
      → (lookup id out ≡ lookup id resolved) ⊎ Only devices by_name id out
  unfolding assign_names entries_of lookup
  assign_names-Only devices [] resolved out id h = inl (ground arith)
  assign_names-Only devices ((name, ids) ∷ rest) resolved out id h =
      elim (match-cases (entries_of name (group_devices devices []))) [
        | inl e ↦ widen (assign_names-Only devices rest resolved out id (rw (e, assign_names) at h))
        | inr (inl (a, e)) ↦
            elim (assign_names-Only devices rest (assign_ids ids a resolved) out id
              (rw (e, assign_names) at h)) [
                | inr o ↦ inr (Only-later (name, ids) o)
                | inl q ↦ elim (lookup-assign_ids id ids a resolved) [
                  | inl p ↦ inl (q ∙ p)
                  | inr (m, p) ↦ inr (record {
                    name = name;
                    ids = ids;
                    address = a;
                    entry = mem-cons.1 (Or.inl refl);
                    member = m;
                    alone = sym (group_devices-entries name devices []) ∙ e;
                    given = q ∙ p;
                  })
                ]
              ]
        | inr (inr (a, b, more, e)) ↦ absurd (err-not-ok (rw (e, assign_names) at h))
      ]
    where
      widen :
          (lookup id out ≡ lookup id resolved) ⊎ Only devices rest id out
          → (lookup id out ≡ lookup id resolved) ⊎ Only devices ((name, ids) ∷ rest) id out
      widen (inl q) = inl q
      widen (inr o) = inr (Only-later (name, ids) o)
