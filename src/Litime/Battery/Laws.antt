-- ===== src/Litime/Battery/Laws.antt =====
-- What ParseBatteries accepts, and what it returns.
use mathlib.Core.List.{
  Mem, Perm, Nodup, Nodup-cons, Nodup-nil, mem-cons, mem-cons_self, not-mem-nil, append_assoc,
  append-nil,
}
use mathlib.Core.List.Perm
use mathlib.Core.Logic.Or
use native.Mathlib.Nat.{ℕ_set}
use litime_timescaledb_inser.Prelude.{
  ◌≡◌, refl, sym, ap, subst, ◌∙◌, ◌≢◌, ◌↔◌, inl, inr, false, List, [], ◌∷◌, ◌++◌, map, Option, none,
  ok, arith, is_empty, Result-cases,
}
use litime_timescaledb_inser.Strings.{Text, trim_space}
use litime_timescaledb_inser.Maps.{Map, lookup, insert}
use litime_timescaledb_inser.Maps.Laws.{lookup-insert, lookup-insert_self, lookup-insert_ne}
use litime_timescaledb_inser.Sorting.{sort_by}
use litime_timescaledb_inser.Sorting.Laws.{sort_by-perm}
use litime_timescaledb_inser.Litime.Battery.{
  Battery, battery_of, parse_entries, sorted_entries, parse_batteries,
}

abbrev pub target : Text × Text → Text
target e = trim_space e.1

abbrev pub targets : Map Text → List Text
targets = map target

-- The entry has an ID and a target, apart from white space.
abbrev pub IsFilled : Text × Text → Type 0
IsFilled e = (trim_space e.0 ≢ []) × (target e ≢ [])

-- Every entry is filled, and no two have the same target.
pub record IsAcceptable (entries : Map Text) : Type 0 where
  pub filled : (e : Text × Text) → Mem e entries → IsFilled e
  pub distinct : Nodup (targets entries)

is_empty-ne : (s : Text) → s ≢ [] → is_empty s ≡ false
is_empty-ne [] h = absurd (h refl)
is_empty-ne (c ∷ s) h = refl

is_empty-true : (s : Text) → is_empty s ≡ false → s ≢ []
is_empty-true [] h e = cc
is_empty-true (c ∷ s) h e = cc

none_prop : {o : Option Text} → IsProp (o ≡ none)
none_prop = hlevel ℕ_set

module _ {Address : Type 0} (parse_address : Text → Option Address) where
  -- The loop's own test of one entry after another.
  abbrev Passes : Map Text → Map Text → Type 0
  Passes [] seen = Unit
  Passes (e ∷ es) seen =
      IsFilled e
      × (lookup (target e) seen ≡ none)
      × Passes es (insert (target e) (trim_space e.0) seen)

  parse_entries_of_Passes :
      (es seen : Map Text) (bs : List Battery)
      → Passes es seen
      → parse_entries parse_address es seen bs ≡ ok (bs ++ map (battery_of parse_address) es)
  unfolding parse_entries
  parse_entries_of_Passes [] seen bs h = rw append-nil
  parse_entries_of_Passes (e ∷ es) seen bs h =
      let rest =
        parse_entries_of_Passes es (insert (target e) (trim_space e.0) seen)
          (bs ++ battery_of parse_address e ∷ []) h.2 in
      rw (is_empty-ne _ h.0.0, is_empty-ne _ h.0.1, h.1, parse_entries)
        (rest ∙ ap ok (append_assoc bs (battery_of parse_address e ∷ []) _))

  Passes-of_ok :
      (es seen : Map Text) (bs out : List Battery)
      → parse_entries parse_address es seen bs ≡ ok out
      → Passes es seen
  unfolding parse_entries
  Passes-of_ok [] seen bs out h = tt
  Passes-of_ok (e ∷ es) seen bs out h =
      let ih =
        Passes-of_ok es (insert (target e) (trim_space e.0) seen)
          (bs ++ battery_of parse_address e ∷ []) out in
      ground (arith, ih, is_empty-true (trim_space e.0), is_empty-true (target e))

  Passes-IsFilled :
      (es seen : Map Text) → Passes es seen → (e : Text × Text) → Mem e es → IsFilled e
  Passes-IsFilled [] seen h e m = absurd (not-mem-nil m)
  Passes-IsFilled (d ∷ es) seen h e m =
      Or.elim (hlevel) (mem-cons.0 m) (λ q. subst IsFilled (sym q) h.0)
        (Passes-IsFilled es (insert (target d) (trim_space d.0) seen) h.2 e)

  abbrev IsUnseen : Map Text → Map Text → Type 0
  IsUnseen es seen = (t : Text) → Mem t (targets es) → lookup t seen ≡ none

  Passes-distinct_cons :
      (e : Text × Text) (es seen : Map Text)
      → lookup (target e) seen ≡ none
      → Nodup (targets es) × IsUnseen es (insert (target e) (trim_space e.0) seen)
      → Nodup (targets (e ∷ es)) × IsUnseen (e ∷ es) seen
  Passes-distinct_cons e es seen h ih = (Nodup-cons.1 (new, ih.0), old)
    where
      new : ¬ Mem (target e) (targets es)
      new m = cc (ih.1 (target e) m, lookup-insert_self (target e) (trim_space e.0) seen)

      old : (t : Text) → Mem t (target e ∷ targets es) → lookup t seen ≡ none
      old t m =
          Or.elim none_prop (mem-cons.0 m) (λ q. rw q h)
            (λ k. ground (arith, ih.1 t k, lookup-insert (target e) t (trim_space e.0) seen))

  Passes-distinct : (es seen : Map Text) → Passes es seen → Nodup (targets es) × IsUnseen es seen
  Passes-distinct [] seen h = (Nodup-nil, λ t m. absurd (not-mem-nil m))
  Passes-distinct (e ∷ es) seen h =
      Passes-distinct_cons e es seen h.1
        (Passes-distinct es (insert (target e) (trim_space e.0) seen) h.2)

  Passes-of :
      (es seen : Map Text)
      → ((e : Text × Text) → Mem e es → IsFilled e)
      → Nodup (targets es)
      → ((t : Text) → Mem t (targets es) → lookup t seen ≡ none)
      → Passes es seen
  Passes-of [] seen f d h = tt
  Passes-of (e ∷ es) seen f d h = (
    f e mem-cons_self,
    h (target e) mem-cons_self,
    Passes-of es (insert (target e) (trim_space e.0) seen) (λ x m. f x (mem-cons.1 (Or.inr m)))
        (Nodup-cons.0 d).1
        (λ t m.
          lookup-insert_ne (target e) t (trim_space e.0) seen
            (λ q. (Nodup-cons.0 d).0 (subst (λ u. Mem u (targets es)) (sym q) m))
          ∙ h t (mem-cons.1 (Or.inr m))),
  )

  Passes-iff : (es : Map Text) → Passes es [] ↔ IsAcceptable es
  unfolding lookup
  Passes-iff es = (
    λ h. record { filled = Passes-IsFilled es [] h; distinct = (Passes-distinct es [] h).0 },
    λ a. Passes-of es [] a.filled a.distinct (λ t m. refl),
  )

  -- With at least one entry, the list is returned exactly when every entry has an ID and a target
  -- that are not only white space and no two entries have the same target after trimming. It is
  -- then the list of the trimmed entries, each classified by the address parser, sorted by ID.
  pub parse_batteries_iff :
      (e : Text × Text) (es : Map Text) (fallback_name : Text) (bs : List Battery)
      → (parse_batteries parse_address (e ∷ es) fallback_name ≡ ok bs) ↔ (
          IsAcceptable (e ∷ es)
          × (bs ≡ sort_by (λ b. b.id) (map (battery_of parse_address) (e ∷ es))))
  unfolding parse_batteries sorted_entries
  parse_batteries_iff e es fallback_name bs = (accepted, λ h. rw (parsed h.0) (ap ok (sym h.1)))
    where
      parsed :
          IsAcceptable (e ∷ es)
          → parse_entries parse_address (e ∷ es) [] []
            ≡ ok (map (battery_of parse_address) (e ∷ es))
      parsed a = parse_entries_of_Passes (e ∷ es) [] [] ((Passes-iff (e ∷ es)).1 a)

      accepted :
          sorted_entries (parse_entries parse_address (e ∷ es) [] []) ≡ ok bs
          → IsAcceptable (e ∷ es)
            × (bs ≡ sort_by (λ b. b.id) (map (battery_of parse_address) (e ∷ es)))
      accepted h = elim (Result-cases (parse_entries parse_address (e ∷ es) [] [])) [
        | inl (out, q) ↦
            let a = (Passes-iff (e ∷ es)).0 (Passes-of_ok (e ∷ es) [] [] out q) in
            (a, cc (h, q, parsed a))
        | inr (x, q) ↦ cc (h, q)
      ]

  IsAcceptable-perm : {es ds : Map Text} → Perm es ds → IsAcceptable es → IsAcceptable ds
  IsAcceptable-perm p a = record {
    filled = λ e m. a.filled e ((Perm.mem_iff p).1 m);
    distinct = Perm.nodup (Perm.map target p) a.distinct;
  }

  -- If one order of iteration over the configured map gives a battery list, every other order of
  -- the same entries gives one too, with the same batteries.
  pub parse_batteries-perm :
      (e d : Text × Text) (es ds : Map Text) (fallback_name : Text) (bs : List Battery)
      → Perm (e ∷ es) (d ∷ ds)
      → parse_batteries parse_address (e ∷ es) fallback_name ≡ ok bs
      → (cs : List Battery) × (parse_batteries parse_address (d ∷ ds) fallback_name ≡ ok cs)
        × Perm bs cs
  parse_batteries-perm e d es ds fallback_name bs p h =
      let q = (parse_batteries_iff e es fallback_name bs).0 h in
      let sorted = λ (xs : Map Text). sort_by (λ b. b.id) (map (battery_of parse_address) xs) in
      let perms = λ (xs : Map Text). sort_by-perm (λ b. b.id) (map (battery_of parse_address) xs) in
      (
        sorted (d ∷ ds),
        (parse_batteries_iff d ds fallback_name (sorted (d ∷ ds))).1
            (IsAcceptable-perm p q.0, refl),
        subst (λ l. Perm l (sorted (d ∷ ds))) (sym q.1)
            (Perm.trans (perms (e ∷ es))
              (Perm.trans (Perm.map (battery_of parse_address) p) (Perm.symm (perms (d ∷ ds))))),
      )
