-- ===== src/Litime/Resolve/Attributed.antt =====
-- Every address that resolveAddresses gives an ID, from end to end.
use mathlib.Core.List.{Perm}
use mathlib.Core.List.Perm
use mathlib.Core.List.Memᴰ
use mathlib.Core.Logic.{∥∥₁_elim, ∥∥₁_map}
use litime_timescaledb_inser.Prelude.{
  ◌≡◌, sym, ap, ◌∙◌, ◌⊎◌, inl, inr, List, [], ◌∷◌, Option, some, ok, err, >>=-eq-ok, ok-injective,
  Bool-cases, Option-cases, is_empty,
}
use litime_timescaledb_inser.Strings.{Text}
use litime_timescaledb_inser.Maps.{Map, lookup}
use litime_timescaledb_inser.Litime.Battery.{Battery}
use litime_timescaledb_inser.Litime.Resolve.{
  Discovered, ResolveError, Targets, scan_names, assign_names, group_devices, resolve_addresses,
}
use litime_timescaledb_inser.Litime.Resolve.Traced.{addresses_named, assign_names-Only}
use litime_timescaledb_inser.Litime.Resolve.Collected.{
  ByAddress, ByName, IsTraced, collect-IsTraced,
}

module _ {Address : Type 0} where
  some-injective : {a b : Address} → some a ≡ some b → a ≡ b
  some-injective e = cc

  err-not-ok : {e : ResolveError} {m : Map Address} → ¬ (err e ≡ ok m)
  err-not-ok h = cc

module _ {Address : Type 0} (parse_address : Text → Option Address) (batteries : List Battery) where
  module _ (scan : List Text → Option (List (Discovered Address)))
      (arrange : Map (List Text) → Map (List Text)) where
    -- A scan found exactly one device with the name of the battery, and this is its address.
    pub record Found (id : Text) (address : Address) : Type 0 where
      pub name : Text
      pub battery : ByName parse_address batteries id name
      pub names : List Text
      pub devices : List (Discovered Address)
      pub scanned : scan names ≡ some devices
      pub alone : addresses_named name devices ≡ address ∷ []

    module _ (arrange_perm : (m : Map (List Text)) → Perm (arrange m) m) (t : Targets Address)
        (v : IsTraced parse_address batteries t) (out : Map Address) (id : Text) (address : Address)
        (given : lookup id out ≡ some address) where
      scanned-Found :
          (devices : List (Discovered Address))
          → scan t.names ≡ some devices
          → assign_names (group_devices devices []) (arrange t.by_name) t.resolved ≡ ok out
          → ∥ ByAddress parse_address batteries id address ⊎ Found id address ∥₁
      scanned-Found devices e h =
          elim (assign_names-Only devices (arrange t.by_name) t.resolved out id h) [
            | inl q ↦ ∣ inl (v.addresses id address (sym q ∙ given)) ∣₁
            | inr o ↦ ∥∥₁_elim ((Perm.mem_iff (arrange_perm t.by_name)).0 o.entry) (hlevel) (λ m.
                ∥∥₁_map o.member (λ n. inr (record {
                  name = o.name;
                  battery = v.names id o.name o.ids m n;
                  names = t.names;
                  devices = devices;
                  scanned = e;
                  alone = o.alone ∙ ap (λ a. a ∷ []) (some-injective (sym o.given ∙ given));
                })))
          ]

      scan_names-Found :
          scan_names parse_address scan arrange t ≡ ok out
          → ∥ ByAddress parse_address batteries id address ⊎ Found id address ∥₁
      unfolding scan_names
      scan_names-Found h = elim (Bool-cases (is_empty t.names)) [
        | inl e ↦
            ∣ inl (
              v.addresses id address
                (ap (lookup id) (ok-injective (rw (e, scan_names) at h)) ∙ given)) ∣₁
        | inr e ↦ elim (Option-cases (scan t.names)) [
          | inl f ↦ absurd (err-not-ok (rw (f, scan_names) at (rw (e, scan_names) at h)))
          | inr (devices, f) ↦
              scanned-Found devices f (rw (f, scan_names) at (rw (e, scan_names) at h))
        ]
      ]

module _ {Address : Type 0} (parse_address : Text → Option Address)
    (scan : List Text → Option (List (Discovered Address)))
    (arrange : Map (List Text) → Map (List Text)) where
  -- Whatever order the map of names is gone through in, an address that resolveAddresses gives for
  -- an ID is that of a configured battery with this ID: for one configured by address it is the
  -- parsed value, and for one configured by name it is the address of the only device with exactly
  -- this name among the devices of the scan. Condition: `arrange` permutes the map.
  pub resolve_addresses_traced :
      (batteries : List Battery) (out : Map Address) (id : Text) (address : Address)
      → ((m : Map (List Text)) → Perm (arrange m) m)
      → resolve_addresses parse_address scan arrange batteries ≡ ok out
      → lookup id out ≡ some address
      → ∥ ByAddress parse_address batteries id address
          ⊎ Found parse_address batteries scan arrange id address ∥₁
  unfolding resolve_addresses lookup
  resolve_addresses_traced batteries out id address arranges h given =
      let (t, collected, scanned) = >>=-eq-ok _ _ h in
      let start : IsTraced parse_address batteries
          (record { resolved = []; names = []; by_name = [] }) =
        record { addresses = λ j a e. cc; names = λ j name ids m n. absurd (Memᴰ.not-nil m) } in
      scan_names-Found parse_address batteries scan arrange arranges t
        (collect-IsTraced parse_address batteries batteries _ t (λ b m. m) start collected) out id
        address given scanned
