-- ===== src/Measurements/Proposition.antt =====
-- When a proposition on a measured value is answered yes
-- (pke/src/pke/query/measurement_resolver.py).
use jamesbrain.Common.{
  Bool, true, false, ◌≡◌, ◌≢◌, ◌↔◌, inl, inr, refl, none, some, List, [], ◌∷◌, Memᴰ, Bool-cases,
  filter, Text,
}
use jamesbrain.Temporal.Instant.{ZoneData}
use jamesbrain.Temporal.Membership.{TemporalMembership, TimeRange}
use jamesbrain.Ranking.Order.{mem-filter, mem_of_filter}
use jamesbrain.Measurements.{Measurement, MeasurementValueFilter, is_filter}
use jamesbrain.Measurements.Resolver.{
  PropositionAnswer, Comparison, MeasurementResolverResult, filter_comparable, units_comparable,
  measurement_range_membership, is_match, partition_temporal, is_nonempty,
}
use jamesbrain.Measurements.Query.{
  is_match_value, is_mismatch, yes_on, conflicting, conflicts, proposition_in, proposition_of,
  proposition,
}

module _ {A : Type 0} (p : A → Bool) where
  nonempty-mem :
      (xs : List A) → is_nonempty (filter p xs) ≡ true → (x : A) × Memᴰ x xs × (p x ≡ true)
  nonempty-mem [] h = cc
  nonempty-mem (x ∷ xs) h = elim (Bool-cases (p x)) [
    | inl e ↦ (x, Memᴰ.head refl, e)
    | inr e ↦ let (y, m, f) = nonempty-mem xs (rw e at h) in (y, Memᴰ.tail m, f)
  ]

  filter-nil : (xs : List A) → ((x : A) → Memᴰ x xs → p x ≡ false) → filter p xs ≡ []
  filter-nil [] h = refl
  filter-nil (x ∷ xs) h = rw (h x (Memᴰ.head refl)) (filter-nil xs (λ y m. h y (Memᴰ.tail m)))

mem-nonempty : {A : Type 0} (x : A) (xs : List A) → Memᴰ x xs → is_nonempty xs ≡ true
mem-nonempty x [] h = elim h [ ]
mem-nonempty x (y ∷ ys) h = refl

no_mem : {A : Type 0} {x : A} {xs : List A} → xs ≡ [] → Memᴰ x xs → ⊥
no_mem e m = elim (rw e at m) [ ]

IsYes : MeasurementResolverResult → Type 0
IsYes r = r.proposition_answer ≡ some PropositionAnswer.yes_answer

proposition_in-IsYes :
    (dimension : Text) (ms us os : List Measurement)
    → IsYes (proposition_in dimension ms us os) ↔ ((is_nonempty ms ≡ true) × (os ≡ []))
unfolding proposition_in yes_on IsYes
proposition_in-IsYes dimension [] [] os = (λ h. cc, λ h. cc)
proposition_in-IsYes dimension [] (u ∷ us) os = (λ h. cc, λ h. cc)
proposition_in-IsYes dimension (m ∷ ms) us [] = (λ h. (refl, refl), λ h. refl)
proposition_in-IsYes dimension (m ∷ ms) us (o ∷ os) = (λ h. cc, λ h. cc (h.1))

module _ (zd : ZoneData) (dimension : Text) (f : MeasurementValueFilter)
    (pool : List Measurement) where
  abbrev matching : List Measurement
  matching = filter (λ m. is_match_value (filter_comparable m f)) pool

  proposition_of-IsYes :
      (q : TimeRange) (ms is : List Measurement)
      → IsYes (proposition_of zd dimension f (some q) pool ms is) ↔ (
          (is_nonempty (partition_temporal zd ms (some q)).0 ≡ true)
          × (conflicts f (partition_temporal zd pool (some q)).0 ≡ []))
  unfolding proposition_of IsYes partition_temporal
  proposition_of-IsYes q [] [] = (λ h. cc, λ h. cc)
  proposition_of-IsYes q [] (i ∷ is) = (λ h. cc, λ h. cc)
  proposition_of-IsYes q (m ∷ ms) is = proposition_in-IsYes dimension _ _ _

  proposition_of-IsYes_ever :
      (ms is : List Measurement)
      → IsYes (proposition_of zd dimension f none pool ms is) ↔ (is_nonempty ms ≡ true)
  unfolding proposition_of IsYes yes_on
  proposition_of-IsYes_ever [] [] = (λ h. cc, λ h. cc)
  proposition_of-IsYes_ever [] (i ∷ is) = (λ h. cc, λ h. cc)
  proposition_of-IsYes_ever (m ∷ ms) is = (λ h. refl, λ h. refl)

  -- A row whose value is that of the filter.
  abbrev pub Fits : Measurement → Type 0
  Fits m = Memᴰ m pool × (filter_comparable m f ≡ Comparison.match_value)

  is_match_value-eq : (c : Comparison) → is_match_value c ≡ true → c ≡ Comparison.match_value
  is_match_value-eq Comparison.match_value h = refl
  is_match_value-eq Comparison.mismatch h = cc
  is_match_value-eq Comparison.incomparable h = cc

  is_match-eq : (c : TemporalMembership) → is_match c ≡ true → c ≡ TemporalMembership.match
  is_match-eq TemporalMembership.match h = refl
  is_match-eq TemporalMembership.no_match h = cc
  is_match-eq TemporalMembership.unknown h = cc

  is_mismatch-eq : (c : Comparison) → c ≢ Comparison.mismatch → is_mismatch c ≡ false
  is_mismatch-eq Comparison.match_value h = refl
  is_mismatch-eq Comparison.mismatch h = absurd (h refl)
  is_mismatch-eq Comparison.incomparable h = refl

  fits-matching : (m : Measurement) → Fits m → Memᴰ m matching
  fits-matching m (h, e) =
      mem-filter (λ x. is_match_value (filter_comparable x f)) m pool h (rw e refl)

  matching-Fits : (m : Measurement) → Memᴰ m matching → Fits m
  matching-Fits m h =
      let (h', e) = mem_of_filter (λ x. is_match_value (filter_comparable x f)) m pool h in
      (h', is_match_value-eq _ e)

  mismatch_comparable :
      (o : Measurement)
      → filter_comparable o f ≡ Comparison.mismatch
      → units_comparable o.unit o.currency_code f.unit f.currency_code ≡ true
  unfolding filter_comparable
  mismatch_comparable o h =
      elim (Bool-cases (units_comparable o.unit o.currency_code f.unit f.currency_code)) [
        | inl e ↦ e
        | inr e ↦ cc (rw e at h)
      ]

  module _ (q : TimeRange) where
    abbrev in_scope : Measurement → Bool
    in_scope m = is_match (measurement_range_membership zd m q)

    -- Asked for a time range, a proposition is answered yes exactly when a row has the value and
    -- surely lies in the range, and no row that surely lies there has another value of the same unit.
    pub proposition-yes_iff :
        is_filter f ≡ true
        → ((proposition zd dimension (some f) (some q) pool).proposition_answer
            ≡ some PropositionAnswer.yes_answer)
          ↔ (((m : Measurement) × Fits m
                × (measurement_range_membership zd m q ≡ TemporalMembership.match))
              × ((o : Measurement)
                  → Memᴰ o pool
                  → measurement_range_membership zd o q ≡ TemporalMembership.match
                  → filter_comparable o f ≢ Comparison.mismatch))
    unfolding proposition IsYes partition_temporal conflicts
    proposition-yes_iff v = (to, from)
      where
        parts : List Measurement
        parts = filter in_scope pool

        to :
            (proposition zd dimension (some f) (some q) pool).proposition_answer
              ≡ some PropositionAnswer.yes_answer
            → ((m : Measurement) × Fits m
                × (measurement_range_membership zd m q ≡ TemporalMembership.match))
              × ((o : Measurement)
                  → Memᴰ o pool
                  → measurement_range_membership zd o q ≡ TemporalMembership.match
                  → filter_comparable o f ≢ Comparison.mismatch)
        to h =
            let (a, b) = (proposition_of-IsYes q matching _).0 (rw v at h) in
            let (m, k, e) = nonempty-mem in_scope matching a in
            (
              (m, matching-Fits m k, is_match-eq _ e),
              λ o ho eo mis. no_mem b (
                  mem-filter (conflicting f) o parts (mem-filter in_scope o pool ho (rw eo refl))
                    (rw (mis, mismatch_comparable o mis) refl)),
            )

        from :
            ((m : Measurement) × Fits m
                × (measurement_range_membership zd m q ≡ TemporalMembership.match))
              × ((o : Measurement)
                  → Memᴰ o pool
                  → measurement_range_membership zd o q ≡ TemporalMembership.match
                  → filter_comparable o f ≢ Comparison.mismatch)
            → (proposition zd dimension (some f) (some q) pool).proposition_answer
              ≡ some PropositionAnswer.yes_answer
        from ((m, fits, e), others) = rw v (
            (proposition_of-IsYes q matching _).1 (
              mem-nonempty m _ (mem-filter in_scope m matching (fits-matching m fits) (rw e refl)),
              filter-nil (conflicting f) parts (λ o ho.
                  let (ho', eo) = mem_of_filter in_scope o pool ho in
                  rw (is_mismatch-eq _ (others o ho' (is_match-eq _ eo))) refl),
            ))

    -- Without a range, it is answered yes exactly when a row has the value.
    proposition-yes_ever :
        is_filter f ≡ true
        → ((proposition zd dimension (some f) none pool).proposition_answer
            ≡ some PropositionAnswer.yes_answer)
          ↔ ((m : Measurement) × Fits m)
    unfolding proposition IsYes
    proposition-yes_ever v = (
      λ h.
          let (m, k, e) =
            nonempty-mem (λ x. is_match_value (filter_comparable x f)) pool
              ((proposition_of-IsYes_ever matching _).0 (rw v at h)) in
          (m, (k, is_match_value-eq _ e)),
      λ (m, fits).
          rw v ((proposition_of-IsYes_ever matching _).1 (mem-nonempty m _ (fits-matching m fits))),
    )
