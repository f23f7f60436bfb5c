-- ===== src/Measurements/Pool.antt =====
-- That a measurement query shows only rows that were given and asked for
-- (pke/src/pke/query/measurement_resolver.py).
use jamesbrain.Common.{
  true, not, ◌≡◌, ◌⊎◌, inl, inr, Option, none, some, List, [], ◌∷◌, ◌++◌, Memᴰ, if-cases,
  Bool-cases, ◌==◌, ==_iff, leb, Text, is_some,
}
use jamesbrain.Temporal.Instant.{DateTime, ZoneData}
use jamesbrain.Temporal.Membership.{TimeRange}
use jamesbrain.Ranking.Order.{mem_of_filter}
use jamesbrain.Measurements.{Measurement, MeasurementQueryMode, MeasurementValueFilter, is_filter}
use jamesbrain.Measurements.Resolver.{
  MeasurementResolverResult, partition_temporal, observation_instant, group_by_value, is_single,
  is_nonempty,
}
use jamesbrain.Measurements.Modes.{
  latest, latest_by, latest_known, unordered_rows, ordered_rows, rows_at, max_instant, at_time,
  at_time_of, in_range, range_of, sort_by_text, insert_by_text, instant_text,
}
use jamesbrain.Measurements.Latest.{rows_at-mem, ordered-mem}
use jamesbrain.Measurements.Query.{
  yes_on, conflicting, conflicts, proposition_in, proposition_of, proposition, is_context, pool_of,
  resolve_pool, resolve_measurement_query,
}

-- The rows that a result shows: its candidates and those of an unknown time.
abbrev pub Shows : MeasurementResolverResult → Measurement → Type 0
Shows r m = Memᴰ m r.candidate_observations ⊎ Memᴰ m r.unknown_temporal_contributors

-- Every row that a result shows is one of the rows.
abbrev IsFrom : List Measurement → MeasurementResolverResult → Type 0
IsFrom pool r = (m : Measurement) → Shows r m → Memᴰ m pool

-- The first rows are among the others.
abbrev Within : List Measurement → List Measurement → Type 0
Within xs pool = (m : Measurement) → Memᴰ m xs → Memᴰ m pool

nothing : (pool : List Measurement) → Within [] pool
nothing pool m h = elim h [ ]

either :
    (pool xs ys : List Measurement) (m : Measurement)
    → Within xs pool
    → Within ys pool
    → Memᴰ m xs ⊎ Memᴰ m ys
    → Memᴰ m pool
either pool xs ys m a b (inl h) = a m h
either pool xs ys m a b (inr h) = b m h

mem-append :
    (m : Measurement) (xs ys : List Measurement) → Memᴰ m (xs ++ ys) → Memᴰ m xs ⊎ Memᴰ m ys
mem-append m [] ys h = inr h
mem-append m (x ∷ xs) ys (Memᴰ.head e) = inl (Memᴰ.head e)
mem-append m (x ∷ xs) ys (Memᴰ.tail h) = elim (mem-append m xs ys h) [
  | inl k ↦ inl (Memᴰ.tail k)
  | inr k ↦ inr k
]

module _ (zd : ZoneData) (dimension : Text) (pool : List Measurement) where
  latest_known-IsFrom :
      (rows : List Measurement) → Within rows pool → IsFrom pool (latest_known dimension rows)
  unfolding latest_known
  latest_known-IsFrom rows w =
      if-cases (IsFrom pool) (is_single (group_by_value rows)) _ _
        (λ e m h. either pool rows [] m w (nothing pool) h)
        (λ e m h. either pool rows [] m w (nothing pool) h)

  latest_by-IsFrom :
      (us : List Measurement) (os : List (DateTime × Measurement))
      → Within us pool
      → Within (rows_at (max_instant os) os) pool
      → IsFrom pool (latest_by dimension pool us os)
  unfolding latest_by
  latest_by-IsFrom [] os a b m h = latest_known-IsFrom _ b m h
  latest_by-IsFrom (u ∷ us) [] a b m h = either pool (u ∷ us) (u ∷ us) m a a h
  latest_by-IsFrom (u ∷ us) (o ∷ os) a b m h = either pool pool (u ∷ us) m (λ n k. k) a h

  at_time_of-IsFrom :
      (ms us : List Measurement)
      → Within ms pool
      → Within us pool
      → IsFrom pool (at_time_of dimension ms us)
  unfolding at_time_of
  at_time_of-IsFrom [] [] a b m h = either pool [] [] m (nothing pool) (nothing pool) h
  at_time_of-IsFrom [] (u ∷ us) a b m h = either pool (u ∷ us) (u ∷ us) m b b h
  at_time_of-IsFrom (m ∷ ms) us a b x h = either pool (m ∷ ms) us x a b h

  insert-Within :
      (n : Measurement) (ns : List Measurement) → Within (insert_by_text zd n ns) (n ∷ ns)
  unfolding insert_by_text
  insert-Within n [] m h = h
  insert-Within n (x ∷ ns) m h = elim (Bool-cases (leb (instant_text zd n) (instant_text zd x))) [
    | inl e ↦ rw e at h
    | inr e ↦ past (insert-Within n ns m) (rw e at h)
  ]
    where
      past :
          (Memᴰ m (insert_by_text zd n ns) → Memᴰ m (n ∷ ns))
          → Memᴰ m (x ∷ insert_by_text zd n ns)
          → Memᴰ m (n ∷ x ∷ ns)
      past ih (Memᴰ.head e) = Memᴰ.tail (Memᴰ.head e)
      past ih (Memᴰ.tail k) = swap (ih k)
        where
          swap : Memᴰ m (n ∷ ns) → Memᴰ m (n ∷ x ∷ ns)
          swap (Memᴰ.head e) = Memᴰ.head e
          swap (Memᴰ.tail l) = Memᴰ.tail (Memᴰ.tail l)

  sort-Within : (ns : List Measurement) → Within (sort_by_text zd ns) ns
  unfolding sort_by_text
  sort-Within [] m h = h
  sort-Within (n ∷ ns) m h = place (insert-Within n (sort_by_text zd ns) m h) (sort-Within ns m)
    where
      place :
          Memᴰ m (n ∷ sort_by_text zd ns)
          → (Memᴰ m (sort_by_text zd ns) → Memᴰ m ns)
          → Memᴰ m (n ∷ ns)
      place (Memᴰ.head e) ih = Memᴰ.head e
      place (Memᴰ.tail k) ih = Memᴰ.tail (ih k)

  range_of-IsFrom :
      (ms us : List Measurement)
      → Within ms pool
      → Within us pool
      → IsFrom pool (range_of zd dimension ms us)
  unfolding range_of
  range_of-IsFrom [] [] a b m h = either pool [] [] m (nothing pool) (nothing pool) h
  range_of-IsFrom [] (u ∷ us) a b m h = either pool (u ∷ us) (u ∷ us) m b b h
  range_of-IsFrom (m ∷ ms) us a b x h =
      either pool (sort_by_text zd (m ∷ ms)) us x (λ y k. a y (sort-Within (m ∷ ms) y k)) b h

  proposition_in-IsFrom :
      (ms us os : List Measurement)
      → Within ms pool
      → Within us pool
      → Within os pool
      → IsFrom pool (proposition_in dimension ms us os)
  unfolding proposition_in yes_on
  proposition_in-IsFrom [] [] os a b c m h = either pool [] [] m (nothing pool) (nothing pool) h
  proposition_in-IsFrom [] (u ∷ us) os a b c m h = either pool (u ∷ us) (u ∷ us) m b b h
  proposition_in-IsFrom (m ∷ ms) us [] a b c x h = either pool (m ∷ ms) [] x a (nothing pool) h
  proposition_in-IsFrom (m ∷ ms) us (o ∷ os) a b c x h =
      either pool ((m ∷ ms) ++ (o ∷ os)) [] x both (nothing pool) h
    where
      both : Within ((m ∷ ms) ++ (o ∷ os)) pool
      both y k = either pool (m ∷ ms) (o ∷ os) y a c (mem-append y (m ∷ ms) (o ∷ os) k)

  module _ (q : Option TimeRange) where
    matched-Within :
        (rows : List Measurement) → Within rows pool → Within (partition_temporal zd rows q).0 pool
    unfolding partition_temporal
    matched-Within rows w m h = by_range q h
      where
        by_range : (r : Option TimeRange) → Memᴰ m (partition_temporal zd rows r).0 → Memᴰ m pool
        by_range none k = w m k
        by_range (some r) k = w m (mem_of_filter _ m rows k).0

    unsure-Within :
        (rows : List Measurement) → Within rows pool → Within (partition_temporal zd rows q).1 pool
    unfolding partition_temporal
    unsure-Within rows w m h = by_range q h
      where
        by_range : (r : Option TimeRange) → Memᴰ m (partition_temporal zd rows r).1 → Memᴰ m pool
        by_range none k = elim k [ ]
        by_range (some r) k = w m (mem_of_filter _ m rows k).0

  conflicts-Within :
      (f : MeasurementValueFilter) (rows : List Measurement)
      → Within rows pool
      → Within (conflicts f rows) pool
  unfolding conflicts
  conflicts-Within f rows w m h = w m (mem_of_filter (conflicting f) m rows h).0

module _ (zd : ZoneData) (dimension : Text) where
  latest-IsFrom : (pool : List Measurement) → IsFrom pool (latest zd dimension pool)
  unfolding latest unordered_rows
  latest-IsFrom [] m h = either [] [] [] m (nothing []) (nothing []) h
  latest-IsFrom (n ∷ pool) m h =
      latest_by-IsFrom zd dimension (n ∷ pool) (unordered_rows zd (n ∷ pool))
        (ordered_rows zd (n ∷ pool))
        (λ x k. (mem_of_filter (λ y. not (is_some (observation_instant zd y))) x (n ∷ pool) k).0)
        (λ x k.
          let (t, l, e) = rows_at-mem x (ordered_rows zd (n ∷ pool)) _ k in
          (ordered-mem zd (n ∷ pool) x t l).0)
        m h

  at_time-IsFrom :
      (q : Option TimeRange) (pool : List Measurement) → IsFrom pool (at_time zd dimension q pool)
  unfolding at_time
  at_time-IsFrom none pool m h = either pool [] [] m (nothing pool) (nothing pool) h
  at_time-IsFrom (some q) [] m h = either [] [] [] m (nothing []) (nothing []) h
  at_time-IsFrom (some q) (n ∷ pool) m h =
      at_time_of-IsFrom zd dimension (n ∷ pool) _ _
        (matched-Within zd dimension (n ∷ pool) (some q) (n ∷ pool) (λ x k. k))
        (unsure-Within zd dimension (n ∷ pool) (some q) (n ∷ pool) (λ x k. k)) m h

  in_range-IsFrom :
      (q : Option TimeRange) (pool : List Measurement) → IsFrom pool (in_range zd dimension q pool)
  unfolding in_range
  in_range-IsFrom q [] m h = either [] [] [] m (nothing []) (nothing []) h
  in_range-IsFrom q (n ∷ pool) m h =
      range_of-IsFrom zd dimension (n ∷ pool) _ _
        (matched-Within zd dimension (n ∷ pool) q (n ∷ pool) (λ x k. k))
        (unsure-Within zd dimension (n ∷ pool) q (n ∷ pool) (λ x k. k)) m h

  module _ (f : MeasurementValueFilter) (pool : List Measurement) where
    proposition_of-IsFrom :
        (q : Option TimeRange) (ms is : List Measurement)
        → Within ms pool
        → Within is pool
        → IsFrom pool (proposition_of zd dimension f q pool ms is)
    unfolding proposition_of yes_on
    proposition_of-IsFrom q [] [] a b m h = either pool [] [] m (nothing pool) (nothing pool) h
    proposition_of-IsFrom q [] (i ∷ is) a b m h = either pool (i ∷ is) [] m b (nothing pool) h
    proposition_of-IsFrom none (n ∷ ms) is a b m h = either pool (n ∷ ms) [] m a (nothing pool) h
    proposition_of-IsFrom (some q) (n ∷ ms) is a b m h =
        proposition_in-IsFrom zd dimension pool _ _ _
          (matched-Within zd dimension pool (some q) (n ∷ ms) a)
          (unsure-Within zd dimension pool (some q) (n ∷ ms) a)
          (conflicts-Within zd dimension pool f _
            (matched-Within zd dimension pool (some q) pool (λ x k. k)))
          m h

    proposition-IsFrom :
        (q : Option TimeRange) → IsFrom pool (proposition zd dimension (some f) q pool)
    unfolding proposition
    proposition-IsFrom q =
        if-cases (IsFrom pool) (not (is_filter f)) _ _
          (λ e m h. either pool [] [] m (nothing pool) (nothing pool) h)
          (λ e m h.
            proposition_of-IsFrom q _ _ (λ x k. (mem_of_filter _ x pool k).0)
              (λ x k. (mem_of_filter _ x pool k).0) m h)

  resolve_pool-IsFrom :
      (mode : MeasurementQueryMode) (f : Option MeasurementValueFilter) (q : Option TimeRange)
      (pool : List Measurement)
      → IsFrom pool (resolve_pool zd dimension mode f q pool)
  unfolding resolve_pool proposition
  resolve_pool-IsFrom MeasurementQueryMode.latest_observation f q pool m h = latest-IsFrom pool m h
  resolve_pool-IsFrom MeasurementQueryMode.observation_at_time f q pool m h =
      at_time-IsFrom q pool m h
  resolve_pool-IsFrom MeasurementQueryMode.observations_in_range f q pool m h =
      in_range-IsFrom q pool m h
  resolve_pool-IsFrom MeasurementQueryMode.value_proposition none q pool m h =
      either pool [] [] m (nothing pool) (nothing pool) h
  resolve_pool-IsFrom MeasurementQueryMode.value_proposition (some f) q pool m h =
      proposition-IsFrom f pool q m h

  pool_of-mem :
      (contexts : List Text) (observations : List Measurement) (m : Measurement)
      → Memᴰ m (pool_of dimension contexts observations)
      → Memᴰ m observations
        × (m.dimension_key ≡ dimension)
        × (is_nonempty contexts ≡ true → is_context contexts m.context_entity_id ≡ true)
  unfolding pool_of
  pool_of-mem contexts observations m h = elim (Bool-cases (is_nonempty contexts)) [
    | inl e ↦
        let (k, c) = mem_of_filter (λ x. is_context contexts x.context_entity_id) m _ (rw e at h) in
        let (l, d) = mem_of_filter (λ x. x.dimension_key == dimension) m observations k in
        (l, (==_iff _ _).0 d, λ _. c)
    | inr e ↦
        let (l, d) = mem_of_filter (λ x. x.dimension_key == dimension) m observations (rw e at h) in
        (l, (==_iff _ _).0 d, λ c. cc)
  ]

  -- Whatever the mode, every row that a query shows was given to it, has the dimension asked for,
  -- and where contexts are asked for is of one of them.
  pub resolve_measurement_query-mem :
      (observations : List Measurement) (mode : MeasurementQueryMode)
      (f : Option MeasurementValueFilter) (q : Option TimeRange) (contexts : List Text)
      (m : Measurement)
      → Shows (resolve_measurement_query zd observations dimension mode f q contexts) m
      → Memᴰ m observations
        × (m.dimension_key ≡ dimension)
        × (is_nonempty contexts ≡ true → is_context contexts m.context_entity_id ≡ true)
  unfolding resolve_measurement_query
  resolve_measurement_query-mem observations mode f q contexts m h =
      pool_of-mem contexts observations m
        (resolve_pool-IsFrom mode f q (pool_of dimension contexts observations) m h)
