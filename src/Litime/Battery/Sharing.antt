-- ===== src/Litime/Battery/Sharing.antt =====
-- What the test for duplicates in ParseBatteries lets through: it compares the configured texts.
use mathlib.Core.List.{Nodup-cons, Nodup-nil, not-mem-nil, mem-cons}
use mathlib.Core.Logic.Or
use litime_timescaledb_inser.Prelude.{
  ◌≡◌, refl, sym, subst, ◌≢◌, inl, inr, arith, All, Bool-cases, List, ◌∷◌, [], map, Option, some,
  ok, length,
}
use litime_timescaledb_inser.Strings.{Text, trim_space, text_lt}
use litime_timescaledb_inser.Strings.Laws.{text_lt_irrefl}
use litime_timescaledb_inser.Sorting.{sort_by, insert_sorted}
use litime_timescaledb_inser.Litime.Battery.{
  Battery, match_address, battery_of, classify, parse_batteries,
}
use litime_timescaledb_inser.Litime.Battery.Laws.{
  IsFilled, IsAcceptable, target, parse_batteries_iff,
}

two-IsAcceptable :
    (e d : Text × Text) → IsFilled e → IsFilled d → target e ≢ target d → IsAcceptable (e ∷ d ∷ [])
two-IsAcceptable e d he hd apart = record {
  filled = λ x m.
      Or.elim (hlevel) (mem-cons.0 m) (λ q. subst IsFilled (sym q) he)
        (λ k.
          Or.elim (hlevel) (mem-cons.0 k) (λ q. subst IsFilled (sym q) hd)
            (λ z. absurd (not-mem-nil z)));
  distinct = Nodup-cons.1 (
    λ m. Or.elim (hlevel) (mem-cons.0 m) apart not-mem-nil,
    Nodup-cons.1 (not-mem-nil, Nodup-nil),
  );
}

module _ {Address : Type 0} (parse_address : Text → Option Address) where
  -- Two entries whose targets are different texts are accepted though their IDs are the same once
  -- trimmed: two batteries with one ID result.
  pub parse_batteries_shared_id :
      (i j v w fallback_name : Text)
      → IsFilled (i, v)
      → IsFilled (j, w)
      → trim_space v ≢ trim_space w
      → trim_space i ≡ trim_space j
      → (a b : Battery) × (parse_batteries parse_address ((i, v) ∷ (j, w) ∷ []) fallback_name
          ≡ ok (a ∷ b ∷ []))
        × (a.id ≡ b.id)
  unfolding sort_by insert_sorted battery_of
  parse_batteries_shared_id i j v w fallback_name hv hw apart same =
      let a = battery_of parse_address (i, v) in
      let b = battery_of parse_address (j, w) in
      (
        a,
        b,
        (parse_batteries_iff parse_address (i, v) ((j, w) ∷ []) fallback_name (a ∷ b ∷ [])).1
            (two-IsAcceptable (i, v) (j, w) hv hw apart, rw (same, text_lt_irrefl (trim_space j))),
        same,
      )

  -- Two entries whose targets are different texts for one device address, such as its upper-case
  -- and its lower-case form, are accepted: two batteries at that address result.
  pub parse_batteries_shared_address :
      (i j v w fallback_name : Text) (x : Address)
      → IsFilled (i, v)
      → IsFilled (j, w)
      → trim_space v ≢ trim_space w
      → parse_address (trim_space v) ≡ some x
      → parse_address (trim_space w) ≡ some x
      → (bs : List Battery) × (parse_batteries parse_address ((i, v) ∷ (j, w) ∷ []) fallback_name
          ≡ ok bs)
        × (length bs ≡ 2)
        × All (λ b. (b.match ≡ match_address) × (parse_address b.value ≡ some x)) bs
  unfolding sort_by insert_sorted battery_of classify
  parse_batteries_shared_address i j v w fallback_name x hv hw apart pv pw =
      let bs = sort_by (λ b. b.id) (map (battery_of parse_address) ((i, v) ∷ (j, w) ∷ [])) in
      (
        bs,
        (parse_batteries_iff parse_address (i, v) ((j, w) ∷ []) fallback_name bs).1
            (two-IsAcceptable (i, v) (j, w) hv hw apart, refl),
        ground arith,
        elim (Bool-cases (text_lt (trim_space j) (trim_space i))) [
          | inl e ↦ rw (e, pv, pw) (ground arith)
          | inr e ↦ rw (e, pv, pw) (ground arith)
        ],
      )
