-- ===== src/Victron/Device/Laws.antt =====
-- What the loops of ParseDevices establish.
use mathlib.Core.List.{
  Mem, Nodup, Nodup-cons, Nodup-nil, mem-cons, not-mem-nil, append_assoc, append-nil,
}
use mathlib.Core.Logic.Or
use native.Mathlib.Nat.{ℕ_set}
use litime_timescaledb_inser.Prelude.{
  ok-injective, ℕ, ◌≡◌, ◌≢◌, refl, sym, subst, ◌∙◌, inl, inr, List, [], ◌∷◌, ◌++◌, map, Option,
  none, some, Result, ok, >>=-eq-ok, is_empty, false, arith, Bool-cases, Option-cases,
}
use litime_timescaledb_inser.Strings.{Text, trim_space, to_upper}
use litime_timescaledb_inser.Maps.{Map, lookup, insert, keys}
use litime_timescaledb_inser.Maps.Laws.{lookup-insert, lookup-insert_self}
use litime_timescaledb_inser.Victron.Device.{
  Device, DeviceError, or_fail, check_keys, device_of, parse_entries,
}

-- Every key of the second variable names an entry of the first, once trimmed.
pub check_keys-covered :
    (addresses ks : Map Text) {u : Unit {0}}
    → check_keys addresses ks ≡ ok u
    → (k : Text) → Mem k (keys ks)
    → lookup (trim_space k) addresses ≢ none
unfolding check_keys
check_keys-covered addresses [] h k m = absurd (not-mem-nil m)
check_keys-covered addresses ((id, v) ∷ ks) h k m =
    elim (Option-cases (lookup (trim_space id) addresses)) [
      | inl e ↦ absurd (ground arith)
      | inr (a, e) ↦
          Or.elim (hlevel) (mem-cons.0 m) (λ q. rw q (λ z. cc (e, z)))
            (check_keys-covered addresses ks (rw e at h) k)
    ]

none_prop : {o : Option Text} → IsProp (o ≡ none)
none_prop = hlevel ℕ_set

is_empty-false : (s : Text) → is_empty s ≡ false → s ≢ []
is_empty-false [] h e = cc
is_empty-false (c ∷ s) h e = cc

or_fail-ok : {A : Type 0} (o : Option A) (e : DeviceError) {a : A} → or_fail o e ≡ ok a → o ≡ some a
or_fail-ok none e h = cc
or_fail-ok (some a) e h = cc

module _ {Address Key : Type 0} (above : ℕ → ℕ) (parse_address : Text → Option Address)
    (address_string : Address → Text) (parse_key : Text → Option Key) where
  abbrev Entry : Map Text → Text × Text → Result DeviceError (Device Key)
  Entry = device_of above parse_address address_string parse_key

  -- A device that is accepted has the trimmed ID, the address in upper case and the parsed key of
  -- its entry.
  pub record Describes (ks : Map Text) (e : Text × Text) (d : Device Key) : Type 0 where
    pub named : (d.id ≡ trim_space e.0) × (d.id ≢ [])
    pub parsed : Address
    pub located : parse_address (trim_space e.1) ≡ some parsed
    pub printed : d.address ≡ to_upper above (address_string parsed)
    pub raw_key : Text
    pub keyed : lookup d.id ks ≡ some raw_key
    pub unlocked : parse_key (trim_space raw_key) ≡ some d.key

  device_of-Describes :
      (ks : Map Text) (e : Text × Text) (d : Device Key) → Entry ks e ≡ ok d → Describes ks e d
  unfolding device_of
  device_of-Describes ks (id, address) d h = elim (Bool-cases (is_empty (trim_space id))) [
    | inl e ↦ absurd (ground arith)
    | inr e ↦ elim (Bool-cases (is_empty (trim_space address))) [
      | inl f ↦ absurd (ground arith)
      | inr f ↦
          let h1 = rw (e, f) at h in
          let (p, hp, h2) = >>=-eq-ok _ _ h1 in
          let (r, hr, h3) = >>=-eq-ok _ _ h2 in
          let (k, hk, h4) = >>=-eq-ok _ _ h3 in
          subst (Describes ks (id, address)) (ok-injective h4) (record {
            named = (refl, is_empty-false _ e);
            parsed = p;
            located = or_fail-ok _ _ hp;
            printed = refl;
            raw_key = r;
            keyed = or_fail-ok _ _ hr;
            unlocked = or_fail-ok _ _ hk;
          })
    ]
  ]

  -- Entry by entry, the devices made of the entries.
  abbrev pub AllDescribe : Map Text → Map Text → List (Device Key) → Type 0
  AllDescribe ks [] [] = Unit
  AllDescribe ks (e ∷ es) (d ∷ ds) = Describes ks e d × AllDescribe ks es ds
  AllDescribe ks _ _ = ⊥

  abbrev pub addresses_of : List (Device Key) → List Text
  addresses_of = map (λ d. d.address)

  -- What the loop has appended: one device for each entry, with new and distinct addresses.
  pub record Appended (ks es seen : Map Text) (devices out : List (Device Key)) : Type 0 where
    pub made : List (Device Key)
    pub split : out ≡ devices ++ made
    pub each : AllDescribe ks es made
    pub apart : Nodup (addresses_of made)
    pub fresh : (t : Text) → Mem t (addresses_of made) → lookup t seen ≡ none

  Appended-cons :
      (ks es seen : Map Text) (e : Text × Text) (d : Device Key) (devices out : List (Device Key))
      → Describes ks e d
      → lookup d.address seen ≡ none
      → Appended ks es (insert d.address d.id seen) (devices ++ d ∷ []) out
      → Appended ks (e ∷ es) seen devices out
  Appended-cons ks es seen e d devices out x new a = record {
    made = d ∷ a.made;
    split = a.split ∙ append_assoc devices (d ∷ []) a.made;
    each = (x, a.each);
    apart =
        Nodup-cons.1
          (λ m. cc (a.fresh d.address m, lookup-insert_self d.address d.id seen), a.apart);
    fresh = λ t m.
        Or.elim none_prop (mem-cons.0 m) (λ q. rw q new)
          (λ k. ground (arith, a.fresh t k, lookup-insert d.address t d.id seen));
  }

  pub parse_entries-Appended :
      (ks es seen : Map Text) (devices out : List (Device Key))
      → parse_entries above parse_address address_string parse_key ks es seen devices ≡ ok out
      → Appended ks es seen devices out
  unfolding parse_entries
  parse_entries-Appended ks [] seen devices out h = record {
    made = [];
    split = sym (ok-injective h) ∙ sym (append-nil devices);
    each = tt;
    apart = Nodup-nil;
    fresh = λ t m. absurd (not-mem-nil m);
  }
  parse_entries-Appended ks (e ∷ es) seen devices out h =
      let (d, hd, h1) = >>=-eq-ok (Entry ks e) _ h in
      elim (Option-cases (lookup d.address seen)) [
        | inr (p, q) ↦ absurd (ground arith)
        | inl q ↦ Appended-cons ks es seen e d devices out (device_of-Describes ks e d hd) q (
            parse_entries-Appended ks es (insert d.address d.id seen) (devices ++ d ∷ []) out
              (rw q at h1))
      ]
