-- ===== src/Measurements/Shown.antt =====
-- That a measurement query shows only rows that were given and asked for, in its groups too
-- (pke/src/pke/query/measurement_resolver.py).
use jamesbrain.Common.{
  true, not, ◌≡◌, ◌⊎◌, inl, inr, refl, Option, none, some, List, [], ◌∷◌, ◌++◌, map, Memᴰ, All,
  filter, if-cases, Bool-cases, Text,
}
use jamesbrain.Temporal.Instant.{DateTime, ZoneData}
use jamesbrain.Temporal.Membership.{TimeRange}
use jamesbrain.Measurements.{Measurement, MeasurementQueryMode, MeasurementValueFilter, is_filter}
use jamesbrain.Measurements.Resolver.{
  MeasurementResolverResult, Bucket, rows_of, add_row, fill_buckets, group_of, group_by_value,
  partition_temporal, is_single, is_nonempty, same_value, key_of, value_identity_of,
  filter_comparable,
}
use jamesbrain.Measurements.Modes.{
  latest, latest_by, latest_known, unordered_rows, ordered_rows, rows_at, max_instant, at_time,
  at_time_of, in_range, range_of,
}
use jamesbrain.Measurements.Query.{
  is_match_value, is_incomparable, yes_on, conflicts, proposition_in, proposition_of, proposition,
  is_context, pool_of, resolve_pool, resolve_measurement_query,
}
use jamesbrain.Measurements.Pool.{resolve_measurement_query-mem}

-- The groups are those of the candidates, where there are any.
abbrev IsGrouped : MeasurementResolverResult → Type 0
IsGrouped r = (r.groups ≡ []) ⊎ (r.groups ≡ group_by_value r.candidate_observations)

module _ (dimension : Text) where
  latest_known-IsGrouped : (rows : List Measurement) → IsGrouped (latest_known dimension rows)
  unfolding latest_known
  latest_known-IsGrouped rows = elim (Bool-cases (is_single (group_by_value rows))) [
    | inl e ↦ rw e (inr refl)
    | inr e ↦ rw e (inr refl)
  ]

  latest_by-IsGrouped :
      (pool us : List Measurement) (os : List (DateTime × Measurement))
      → IsGrouped (latest_by dimension pool us os)
  unfolding latest_by
  latest_by-IsGrouped pool [] os = latest_known-IsGrouped (rows_at (max_instant os) os)
  latest_by-IsGrouped pool (u ∷ us) [] = inl refl
  latest_by-IsGrouped pool (u ∷ us) (o ∷ os) = inl refl

  at_time_of-IsGrouped : (ms us : List Measurement) → IsGrouped (at_time_of dimension ms us)
  unfolding at_time_of
  at_time_of-IsGrouped [] [] = inl refl
  at_time_of-IsGrouped [] (u ∷ us) = inl refl
  at_time_of-IsGrouped (m ∷ ms) us = inr refl

  range_of-IsGrouped :
      (zd : ZoneData) (ms us : List Measurement) → IsGrouped (range_of zd dimension ms us)
  unfolding range_of
  range_of-IsGrouped zd [] [] = inl refl
  range_of-IsGrouped zd [] (u ∷ us) = inl refl
  range_of-IsGrouped zd (m ∷ ms) us = inr refl

  proposition_in-IsGrouped :
      (ms us os : List Measurement) → IsGrouped (proposition_in dimension ms us os)
  unfolding proposition_in yes_on
  proposition_in-IsGrouped [] [] os = inl refl
  proposition_in-IsGrouped [] (u ∷ us) os = inl refl
  proposition_in-IsGrouped (m ∷ ms) us [] = inr refl
  proposition_in-IsGrouped (m ∷ ms) us (o ∷ os) = inr refl

  module _ (zd : ZoneData) where
    latest-IsGrouped : (pool : List Measurement) → IsGrouped (latest zd dimension pool)
    unfolding latest
    latest-IsGrouped [] = inl refl
    latest-IsGrouped (m ∷ pool) =
        latest_by-IsGrouped (m ∷ pool) (unordered_rows zd (m ∷ pool)) (ordered_rows zd (m ∷ pool))

    at_time-IsGrouped :
        (q : Option TimeRange) (pool : List Measurement) → IsGrouped (at_time zd dimension q pool)
    unfolding at_time
    at_time-IsGrouped none pool = inl refl
    at_time-IsGrouped (some q) [] = inl refl
    at_time-IsGrouped (some q) (m ∷ pool) =
        at_time_of-IsGrouped (partition_temporal zd (m ∷ pool) (some q)).0
          (partition_temporal zd (m ∷ pool) (some q)).1

    in_range-IsGrouped :
        (q : Option TimeRange) (pool : List Measurement) → IsGrouped (in_range zd dimension q pool)
    unfolding in_range
    in_range-IsGrouped q [] = inl refl
    in_range-IsGrouped q (m ∷ pool) =
        range_of-IsGrouped zd (partition_temporal zd (m ∷ pool) q).0
          (partition_temporal zd (m ∷ pool) q).1

    module _ (f : MeasurementValueFilter) (pool : List Measurement) where
      proposition_of-IsGrouped :
          (q : Option TimeRange) (ms is : List Measurement)
          → IsGrouped (proposition_of zd dimension f q pool ms is)
      unfolding proposition_of yes_on
      proposition_of-IsGrouped q [] [] = inl refl
      proposition_of-IsGrouped q [] (i ∷ is) = inl refl
      proposition_of-IsGrouped none (m ∷ ms) is = inr refl
      proposition_of-IsGrouped (some q) (m ∷ ms) is =
          proposition_in-IsGrouped (partition_temporal zd (m ∷ ms) (some q)).0
            (partition_temporal zd (m ∷ ms) (some q)).1
            (conflicts f (partition_temporal zd pool (some q)).0)

    proposition-IsGrouped :
        (f : Option MeasurementValueFilter) (q : Option TimeRange) (pool : List Measurement)
        → IsGrouped (proposition zd dimension f q pool)
    unfolding proposition
    proposition-IsGrouped none q pool = inl refl
    proposition-IsGrouped (some f) q pool =
        if-cases IsGrouped (not (is_filter f)) _ _ (λ e. inl refl)
          (λ e.
            proposition_of-IsGrouped f pool q
              (filter (λ m. is_match_value (filter_comparable m f)) pool)
              (filter (λ m. is_incomparable (filter_comparable m f)) pool))

    resolve_pool-IsGrouped :
        (mode : MeasurementQueryMode) (f : Option MeasurementValueFilter) (q : Option TimeRange)
        (pool : List Measurement)
        → IsGrouped (resolve_pool zd dimension mode f q pool)
    unfolding resolve_pool
    resolve_pool-IsGrouped MeasurementQueryMode.latest_observation f q pool = latest-IsGrouped pool
    resolve_pool-IsGrouped MeasurementQueryMode.observation_at_time f q pool =
        at_time-IsGrouped q pool
    resolve_pool-IsGrouped MeasurementQueryMode.observations_in_range f q pool =
        in_range-IsGrouped q pool
    resolve_pool-IsGrouped MeasurementQueryMode.value_proposition f q pool =
        proposition-IsGrouped f q pool

module _ (P : Measurement → Type 0) where
  All-of_mem : (ms : List Measurement) → ((m : Measurement) → Memᴰ m ms → P m) → All P ms
  All-of_mem [] f = tt
  All-of_mem (m ∷ ms) f = (f m (Memᴰ.head refl), All-of_mem ms (λ n h. f n (Memᴰ.tail h)))

  All-append : (ms : List Measurement) (m : Measurement) → All P ms → P m → All P (ms ++ (m ∷ []))
  All-append [] m a p = (p, tt)
  All-append (n ∷ ms) m (h, a) p = (h, All-append ms m a p)

  add_row-All :
      (m : Measurement) (bs : List Bucket)
      → P m
      → All (λ b. All P (rows_of b)) bs
      → All (λ b. All P (rows_of b)) (add_row m bs)
  unfolding add_row
  add_row-All m [] p a = ((p, tt), tt)
  add_row-All m (b ∷ bs) p (h, a) =
      if-cases (All (λ b. All P (rows_of b))) (same_value (key_of b) (value_identity_of m)) _ _
        (λ e. (All-append (rows_of b) m h p, a)) (λ e. (h, add_row-All m bs p a))

  fill_buckets-All :
      (ms : List Measurement) (bs : List Bucket)
      → All P ms
      → All (λ b. All P (rows_of b)) bs
      → All (λ b. All P (rows_of b)) (fill_buckets ms bs)
  unfolding fill_buckets
  fill_buckets-All [] bs a c = c
  fill_buckets-All (m ∷ ms) bs (p, a) c =
      fill_buckets-All ms (add_row m bs) a (add_row-All m bs p c)

  groups-All :
      (bs : List Bucket)
      → All (λ b. All P (rows_of b)) bs
      → All (λ g. All P g.observations) (map group_of bs)
  unfolding group_of
  groups-All [] a = tt
  groups-All (b ∷ bs) (h, a) = (h, groups-All bs a)

  group_by_value-All :
      (ms : List Measurement) → All P ms → All (λ g. All P g.observations) (group_by_value ms)
  unfolding group_by_value
  group_by_value-All ms a = groups-All (fill_buckets ms []) (fill_buckets-All ms [] a tt)

  grouped-All :
      (r : MeasurementResolverResult)
      → IsGrouped r
      → All P r.candidate_observations
      → All (λ g. All P g.observations) r.groups
  grouped-All r (inl e) a = rw e tt
  grouped-All r (inr e) a = rw e (group_by_value-All r.candidate_observations a)

-- The row was given, has the dimension asked for, and where contexts are asked for is of one of them.
abbrev pub IsAsked : List Measurement → Text → List Text → Measurement → Type 0
IsAsked observations dimension contexts m =
    Memᴰ m observations
    × (m.dimension_key ≡ dimension)
    × (is_nonempty contexts ≡ true → is_context contexts m.context_entity_id ≡ true)

resolve_measurement_query-IsGrouped :
    (zd : ZoneData) (observations : List Measurement) (dimension : Text)
    (mode : MeasurementQueryMode) (f : Option MeasurementValueFilter) (q : Option TimeRange)
    (contexts : List Text)
    → IsGrouped (resolve_measurement_query zd observations dimension mode f q contexts)
unfolding resolve_measurement_query
resolve_measurement_query-IsGrouped zd observations dimension mode f q contexts =
    resolve_pool-IsGrouped dimension zd mode f q (pool_of dimension contexts observations)

-- Whatever the mode, every row that a query shows, as a candidate, as one of an unknown time or in a
-- group, was given to it, has the dimension asked for, and where contexts are asked for is of one of
-- them.
pub resolve_measurement_query-shown :
    (zd : ZoneData) (observations : List Measurement) (dimension : Text)
    (mode : MeasurementQueryMode) (f : Option MeasurementValueFilter) (q : Option TimeRange)
    (contexts : List Text)
    → All
        (IsAsked observations dimension contexts)
        (resolve_measurement_query zd observations dimension mode f q
          contexts).candidate_observations
      × All
          (IsAsked observations dimension contexts)
          (resolve_measurement_query zd observations dimension mode f q
            contexts).unknown_temporal_contributors
      × All
          (λ g. All (IsAsked observations dimension contexts) g.observations)
          (resolve_measurement_query zd observations dimension mode f q contexts).groups
resolve_measurement_query-shown zd observations dimension mode f q contexts =
    let r = resolve_measurement_query zd observations dimension mode f q contexts in
    let P = IsAsked observations dimension contexts in
    let asked = resolve_measurement_query-mem zd dimension observations mode f q contexts in
    let a = All-of_mem P r.candidate_observations (λ m h. asked m (inl h)) in
    (
      a,
      All-of_mem P r.unknown_temporal_contributors (λ m h. asked m (inr h)),
      grouped-All P r
          (resolve_measurement_query-IsGrouped zd observations dimension mode f q contexts) a,
    )
