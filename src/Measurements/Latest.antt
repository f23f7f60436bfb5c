-- ===== src/Measurements/Latest.antt =====
-- What the latest observation of pke/src/pke/query/measurement_resolver.py is certain of.
use jamesbrain.Common.{
  ℕ, ◌≤◌, true, not, ◌≡◌, ◌↔◌, ◌⊎◌, inl, inr, refl, sym, ap, ◌∙◌, Option, none, some, List, [], ◌∷◌,
  map, Memᴰ, Bool-cases, Option-cases, leb, ◌==◌, ==_iff, arith, filter, Text, is_some,
}
use jamesbrain.Temporal.Instant.{DateTime, utc, ZoneData}
use jamesbrain.Ranking.Order.{mem-filter, mem_of_filter}
use jamesbrain.Measurements.{Measurement}
use jamesbrain.Measurements.Resolver.{
  MeasurementResolutionStatus, observation_instant, value_identity_of, group_by_value, is_single,
}
use jamesbrain.Measurements.Partition.{one_value}
use jamesbrain.Measurements.Modes.{
  unordered_rows, ordered_rows, add_timed, max_instant, rows_at, latest_known, latest_by, latest,
}

-- A row of a list of rows with times.
abbrev Timed : Type 0
Timed = DateTime × Measurement

module _ (m : Measurement) (t : DateTime) where
  add_timed-mem :
      (o : Option DateTime) (n : Measurement) (rows : List Timed)
      → Memᴰ (t, m) (add_timed o n rows)
      → ((m ≡ n) × (o ≡ some t)) ⊎ Memᴰ (t, m) rows
  unfolding add_timed
  add_timed-mem none n rows h = inr h
  add_timed-mem (some u) n rows (Memᴰ.head e) = inl (ap (λ x. x.1) e, ap (λ x. some x.0) (sym e))
  add_timed-mem (some u) n rows (Memᴰ.tail h) = inr h

  mem-add_timed :
      (o : Option DateTime) (n : Measurement) (rows : List Timed)
      → Memᴰ (t, m) rows
      → Memᴰ (t, m) (add_timed o n rows)
  unfolding add_timed
  mem-add_timed none n rows h = h
  mem-add_timed (some u) n rows h = Memᴰ.tail h

  mem_of_add_timed :
      (o : Option DateTime) (n : Measurement) (rows : List Timed)
      → m ≡ n
      → o ≡ some t
      → Memᴰ (t, m) (add_timed o n rows)
  unfolding add_timed
  mem_of_add_timed none n rows e f = cc
  mem_of_add_timed (some u) n rows e f = Memᴰ.head (let g : u ≡ t = cc in rw (e, g) refl)

  max_instant_le : (rows : List Timed) → Memᴰ (t, m) rows → utc t ≤ max_instant rows
  unfolding max_instant
  max_instant_le [] h = elim h [ ]
  max_instant_le ((u, n) ∷ rows) (Memᴰ.head e) =
      let f : t ≡ u = ap (λ x. x.0) e in rw f (ground arith)
  max_instant_le ((u, n) ∷ rows) (Memᴰ.tail h) = let l = max_instant_le rows h in ground arith

  mem-rows_at : (rows : List Timed) (i : ℕ) → Memᴰ (t, m) rows → utc t ≡ i → Memᴰ m (rows_at i rows)
  unfolding rows_at
  mem-rows_at rows i h e =
      mem-map (filter (λ x. utc x.0 == i) rows)
        (mem-filter (λ x. utc x.0 == i) (t, m) rows h ((==_iff _ _).1 e))
    where
      mem-map : (xs : List Timed) → Memᴰ (t, m) xs → Memᴰ m (map (λ x. x.1) xs)
      mem-map [] k = elim k [ ]
      mem-map (x ∷ xs) (Memᴰ.head f) = Memᴰ.head (ap (λ y. y.1) f)
      mem-map (x ∷ xs) (Memᴰ.tail k) = Memᴰ.tail (mem-map xs k)

pub rows_at-mem :
    (m : Measurement) (rows : List Timed) (i : ℕ)
    → Memᴰ m (rows_at i rows)
    → (t : DateTime) × Memᴰ (t, m) rows × (utc t ≡ i)
unfolding rows_at
rows_at-mem m rows i h =
    let (t, k) = mem_of_map (filter (λ x. utc x.0 == i) rows) h in
    let (k', e) = mem_of_filter (λ x. utc x.0 == i) (t, m) rows k in (t, k', (==_iff _ _).0 e)
  where
    mem_of_map : (xs : List Timed) → Memᴰ m (map (λ x. x.1) xs) → (t : DateTime) × Memᴰ (t, m) xs
    mem_of_map [] k = elim k [ ]
    mem_of_map ((u, n) ∷ xs) (Memᴰ.head f) = (u, Memᴰ.head (rw f refl))
    mem_of_map ((u, n) ∷ xs) (Memᴰ.tail k) = let (t, l) = mem_of_map xs k in (t, Memᴰ.tail l)

max_instant-attained :
    (x : Timed) (rows : List Timed)
    → (e : Timed) × Memᴰ e (x ∷ rows) × (utc e.0 ≡ max_instant (x ∷ rows))
unfolding max_instant
max_instant-attained x [] = (x, Memᴰ.head refl, ground arith)
max_instant-attained x (y ∷ rows) =
    let (e, h, f) = max_instant-attained y rows in
    elim (Bool-cases (leb (max_instant (y ∷ rows)) (utc x.0))) [
      | inl l ↦ (x, Memᴰ.head refl, rw l refl)
      | inr l ↦ (e, Memᴰ.tail h, f ∙ rw l refl)
    ]

no_mem : {x : Measurement} → Memᴰ x [] → ⊥
no_mem h = elim h [ ]

module _ (zd : ZoneData) where
  pub ordered-mem :
      (pool : List Measurement) (m : Measurement) (t : DateTime)
      → Memᴰ (t, m) (ordered_rows zd pool)
      → Memᴰ m pool × (observation_instant zd m ≡ some t)
  unfolding ordered_rows
  ordered-mem [] m t h = elim h [ ]
  ordered-mem (n ∷ pool) m t h = elim (add_timed-mem m t (observation_instant zd n) n _ h) [
    | inl p ↦ (Memᴰ.head p.0, ap (observation_instant zd) p.0 ∙ p.1)
    | inr k ↦ let (k', e) = ordered-mem pool m t k in (Memᴰ.tail k', e)
  ]

  mem-ordered :
      (pool : List Measurement) (m : Measurement) (t : DateTime)
      → Memᴰ m pool
      → observation_instant zd m ≡ some t
      → Memᴰ (t, m) (ordered_rows zd pool)
  unfolding ordered_rows
  mem-ordered [] m t h e = elim h [ ]
  mem-ordered (n ∷ pool) m t (Memᴰ.head f) e =
      mem_of_add_timed m t _ n _ f (sym (ap (observation_instant zd) f) ∙ e)
  mem-ordered (n ∷ pool) m t (Memᴰ.tail h) e = mem-add_timed m t _ n _ (mem-ordered pool m t h e)

  -- The rows that `_latest` has at the latest time, and that each row has a time no later.
  module _ (pool : List Measurement) where
    abbrev pub LatestOf : List Measurement → Type 0
    LatestOf rows =
        (m : Measurement)
        → Memᴰ m rows ↔ (
            Memᴰ m pool
            × ((t : DateTime) × (observation_instant zd m ≡ some t)
                × ((n : Measurement)
                    → Memᴰ n pool
                    → (u : DateTime) × (observation_instant zd n ≡ some u) × (utc u ≤ utc t))))

    without :
        (n : Measurement)
        → Memᴰ n pool
        → observation_instant zd n ≡ none
        → Memᴰ n (unordered_rows zd pool)
    unfolding unordered_rows
    without n h f = mem-filter (λ x. not (is_some (observation_instant zd x))) _ pool h (rw f refl)

    all_timed :
        unordered_rows zd pool ≡ []
        → (n : Measurement) → Memᴰ n pool
        → (u : DateTime) × (observation_instant zd n ≡ some u)
    unfolding unordered_rows
    all_timed e n h = elim (Option-cases (observation_instant zd n)) [
      | inr x ↦ x
      | inl f ↦ absurd (no_mem (rw e at without n h f))
    ]

    abbrev at_max : List Measurement
    at_max = rows_at (max_instant (ordered_rows zd pool)) (ordered_rows zd pool)

    attained :
        (rows : List Timed) (m : Measurement) (t : DateTime)
        → Memᴰ (t, m) rows
        → (e : Timed) × Memᴰ e rows × (utc e.0 ≡ max_instant rows)
    attained [] m t h = elim h [ ]
    attained (x ∷ rows) m t h = max_instant-attained x rows

    at_max-LatestOf : unordered_rows zd pool ≡ [] → LatestOf at_max
    at_max-LatestOf none_without m = (to, from)
      where
        to :
            Memᴰ m at_max
            → Memᴰ m pool
              × ((t : DateTime) × (observation_instant zd m ≡ some t)
                  × ((n : Measurement)
                      → Memᴰ n pool
                      → (u : DateTime) × (observation_instant zd n ≡ some u) × (utc u ≤ utc t)))
        to h =
            let (t, k, e) = rows_at-mem m (ordered_rows zd pool) _ h in
            let (k', f) = ordered-mem pool m t k in
            (
              k',
              (
                t,
                f,
                λ n l.
                    let (u, g) = all_timed none_without n l in
                    let le = max_instant_le n u (ordered_rows zd pool) (mem-ordered pool n u l g) in
                    (u, g, omega (arith, le, e)),
              ),
            )

        from :
            Memᴰ m pool
              × ((t : DateTime) × (observation_instant zd m ≡ some t)
                  × ((n : Measurement)
                      → Memᴰ n pool
                      → (u : DateTime) × (observation_instant zd n ≡ some u) × (utc u ≤ utc t)))
            → Memᴰ m at_max
        from (h, (t, f, latest_of)) =
            let k = mem-ordered pool m t h f in
            let (e, l, g) = attained (ordered_rows zd pool) m t k in
            let (l', i) = ordered-mem pool e.1 e.0 l in
            let (u, j, le) = latest_of e.1 l' in
            let same : u ≡ e.0 = cc in
            let le' : utc e.0 ≤ utc t = rw (← same) le in
            let ge = max_instant_le m t (ordered_rows zd pool) k in
            mem-rows_at m t (ordered_rows zd pool) _ k (omega (arith, g, ge, le'))

latest_known-inv :
    (dimension : Text) (rows : List Measurement)
    → (latest_known dimension rows).status ≡ MeasurementResolutionStatus.known_single
    → (is_single (group_by_value rows) ≡ true)
      × ((latest_known dimension rows).candidate_observations ≡ rows)
unfolding latest_known
latest_known-inv dimension rows h = elim (Bool-cases (is_single (group_by_value rows))) [
  | inl e ↦ (e, rw e refl)
  | inr e ↦ cc (rw e at h)
]

latest_by-inv :
    (dimension : Text) (pool us : List Measurement) (os : List Timed)
    → (latest_by dimension pool us os).status ≡ MeasurementResolutionStatus.known_single
    → (us ≡ [])
      × (is_single (group_by_value (rows_at (max_instant os) os)) ≡ true)
      × ((latest_by dimension pool us os).candidate_observations ≡ rows_at (max_instant os) os)
unfolding latest_by
latest_by-inv dimension pool [] os h =
    let (s, e) = latest_known-inv dimension (rows_at (max_instant os) os) h in (refl, s, e)
latest_by-inv dimension pool (u ∷ us) [] h = cc
latest_by-inv dimension pool (u ∷ us) (o ∷ os) h = cc

-- A latest observation that is known for certain is one of the latest of all rows: each row has a
-- time, those shown are the ones at the latest time, and they have one value.
pub latest-known :
    (zd : ZoneData) (dimension : Text) (pool : List Measurement)
    → (latest zd dimension pool).status ≡ MeasurementResolutionStatus.known_single
    → LatestOf zd pool (latest zd dimension pool).candidate_observations
      × ((m n : Measurement)
          → Memᴰ m (latest zd dimension pool).candidate_observations
          → Memᴰ n (latest zd dimension pool).candidate_observations
          → value_identity_of m ≡ value_identity_of n)
unfolding latest
latest-known zd dimension [] h = cc
latest-known zd dimension (m ∷ pool) h =
    let (none_without, single, e) = latest_by-inv dimension (m ∷ pool) _ _ h in
    (
      rw e (at_max-LatestOf zd (m ∷ pool) none_without),
      λ x y hx hy. one_value _ x y single (rw e at hx) (rw e at hy),
    )
