-- ===== src/Victron/Device/Config.antt =====
-- What a configuration that ParseDevices accepts is like.
use mathlib.Core.List.{Mem, Perm, Nodup, mem-cons, not-mem-nil}
use mathlib.Core.Logic.Or
use mathlib.Core.List.Perm
use litime_timescaledb_inser.Prelude.{
  ok-injective, ℕ, ◌≡◌, ◌≢◌, refl, sym, ap, subst, ◌∙◌, List, [], ◌∷◌, map, Option, none, ok,
  >>=-eq-ok, Option-cases, inl, inr, All,
}
use litime_timescaledb_inser.Strings.{Text, trim_space}
use litime_timescaledb_inser.Strings.Laws.{trim_space_idem}
use litime_timescaledb_inser.Maps.{Map, lookup, keys}
use litime_timescaledb_inser.Maps.Laws.{mem-keys_of_lookup}
use litime_timescaledb_inser.Sorting.{sort_by}
use litime_timescaledb_inser.Sorting.Laws.{IsSorted, sort_by-perm, sort_by-IsSorted}
use litime_timescaledb_inser.Victron.Device.{Device, parse_devices}
use litime_timescaledb_inser.Victron.Device.Laws.{
  AllDescribe, addresses_of, check_keys-covered, parse_entries-Appended,
}

All-of_mem : (P : Text → Type 0) (xs : List Text) → ((x : Text) → Mem x xs → P x) → All P xs
All-of_mem P [] h = tt
All-of_mem P (x ∷ xs) h =
    (h x (mem-cons.1 (Or.inl refl)), All-of_mem P xs (λ y m. h y (mem-cons.1 (Or.inr m))))

All-mem :
    (P : Text → Type 0)
    → ((x : Text) → IsProp (P x))
    → (xs : List Text) → All P xs
    → (x : Text) → Mem x xs
    → P x
All-mem P prop [] h x m = absurd (not-mem-nil m)
All-mem P prop (y ∷ ys) h x m =
    Or.elim (prop x) (mem-cons.0 m) (λ e. subst P (sym e) h.0) (All-mem P prop ys h.1 x)

module _ {Address Key : Type 0} (above : ℕ → ℕ) (parse_address : Text → Option Address)
    (address_string : Address → Text) (parse_key : Text → Option Key) where
  abbrev Accepts : Map Text → Map Text → List (Device Key) → Type 0
  Accepts addresses ks ds =
      parse_devices above parse_address address_string parse_key addresses ks ≡ ok ds

  -- What is known of an accepted list: the devices before sorting, and the keys.
  pub record IsConfigured (addresses ks : Map Text) (ds : List (Device Key)) : Type 0 where
    pub made : List (Device Key)
    pub same : Perm ds made
    pub each : AllDescribe above parse_address address_string parse_key ks addresses made
    pub sorted : IsSorted (λ d. d.id) ds
    pub apart : Nodup (addresses_of above parse_address address_string parse_key ds)
    pub covered : All (λ k. lookup (trim_space k) addresses ≢ none) (keys ks)

  accepted-IsConfigured :
      (e : Text × Text) (es ks : Map Text) (ds : List (Device Key))
      → Accepts (e ∷ es) ks ds
      → IsConfigured (e ∷ es) ks ds
  unfolding parse_devices
  accepted-IsConfigured e es ks ds h =
      let (out, loop, h1) = >>=-eq-ok _ _ h in
      let (u, checked, h2) = >>=-eq-ok _ _ h1 in
      let a =
        parse_entries-Appended above parse_address address_string parse_key ks (e ∷ es) [] [] out
          loop in
      let p = sort_by-perm (λ d. d.id) out in
      subst (IsConfigured (e ∷ es) ks) (ok-injective h2) (record {
        made = a.made;
        same = subst (λ l. Perm (sort_by (λ d. d.id) out) l) a.split p;
        each = a.each;
        sorted = sort_by-IsSorted (λ d. d.id) out;
        apart =
            Perm.nodup (Perm.symm (Perm.map (λ d. d.address) p))
              (subst (λ l. Nodup (map (λ d. d.address) l)) (sym a.split) a.apart);
        covered =
            All-of_mem (λ k. lookup (trim_space k) (e ∷ es) ≢ none) (keys ks)
              (check_keys-covered (e ∷ es) ks checked);
      })

  each_keyed :
      (ks es : Map Text) (ds : List (Device Key))
      → AllDescribe above parse_address address_string parse_key ks es ds
      → (id address : Text) → Mem (id, address) es
      → lookup (trim_space id) ks ≢ none
  each_keyed ks [] [] a id address m = absurd (not-mem-nil m)
  each_keyed ks [] (d ∷ ds) a id address m = absurd a
  each_keyed ks (e ∷ es) [] a id address m = absurd a
  each_keyed ks (e ∷ es) (d ∷ ds) a id address m =
      Or.elim (hlevel) (mem-cons.0 m)
        (λ q.
          subst (λ (x : Text × Text). lookup (trim_space x.0) ks ≢ none) (sym q)
            (λ z. cc (a.0.keyed, a.0.named.0, z)))
        (each_keyed ks es ds a.1 id address)

  -- White space round a device ID makes any configuration fail that does not also configure the
  -- trimmed ID: a configured address whose trimmed ID is no ID of a configured address is never
  -- accepted, whatever the keys.
  pub padded_id_rejected :
      (e : Text × Text) (es ks : Map Text) (ds : List (Device Key)) (id address : Text)
      → Mem (id, address) (e ∷ es)
      → lookup (trim_space id) (e ∷ es) ≡ none
      → ¬ Accepts (e ∷ es) ks ds
  padded_id_rejected e es ks ds id address m missing h =
      let c = accepted-IsConfigured e es ks ds h in
      elim (Option-cases (lookup (trim_space id) ks)) [
        | inl q ↦ each_keyed ks (e ∷ es) c.made c.each id address m q
        | inr (v, q) ↦
            All-mem (λ k. lookup (trim_space k) (e ∷ es) ≢ none) (λ k. hlevel) (keys ks) c.covered
              (trim_space id) (mem-keys_of_lookup (trim_space id) ks v q)
              (ap (λ k. lookup k (e ∷ es)) (trim_space_idem id) ∙ missing)
      ]
