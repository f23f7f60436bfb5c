-- ===== src/Measurements/Partition.antt =====
-- That the groups of `_group_by_value` (pke/src/pke/query/measurement_resolver.py) are of one value
-- each, and of different ones.
use jamesbrain.Common.{
  true, false, ◌≡◌, ◌≢◌, inl, inr, refl, sym, ap, ◌∙◌, List, [], ◌∷◌, ◌++◌, map, Memᴰ, if-cases,
  Bool-cases, All, length,
}
use jamesbrain.Ranking.Order.{mem-filter}
use jamesbrain.Measurements.{Measurement}
use jamesbrain.Measurements.Resolver.{
  MeasurementValueIdentity, ResolvedMeasurementValueGroup, Bucket, rows_of, key_of,
  value_identity_of, same_value, add_row, fill_buckets, group_of, group_by_value, is_single,
}
use jamesbrain.Measurements.Groups.{
  same_value_iff, has_value, observations_in, group_by_value-observations,
}

-- The rows of a group have its value, and its support counts them.
abbrev pub IsGroup : ResolvedMeasurementValueGroup → Type 0
IsGroup g =
    All (λ m. value_identity_of m ≡ g.identity) g.observations
    × (g.support_count ≡ length g.observations)

-- Each group has its own value.
abbrev pub IsPartition : List ResolvedMeasurementValueGroup → Type 0
IsPartition [] = Unit
IsPartition (g ∷ gs) = IsGroup g × All (λ h. g.identity ≢ h.identity) gs × IsPartition gs

-- The same of buckets.
abbrev IsBuckets : List Bucket → Type 0
IsBuckets [] = Unit
IsBuckets (b ∷ bs) =
    All (λ m. value_identity_of m ≡ key_of b) (rows_of b)
    × All (λ c. key_of b ≢ key_of c) bs
    × IsBuckets bs

All-append :
    (P : Measurement → Type 0) (xs : List Measurement) (m : Measurement)
    → All P xs
    → P m
    → All P (xs ++ (m ∷ []))
All-append P [] m a p = (p, tt)
All-append P (x ∷ xs) m a p = (a.0, All-append P xs m a.1 p)

All-add_row :
    (i : MeasurementValueIdentity) (m : Measurement) (bs : List Bucket)
    → All (λ c. i ≢ key_of c) bs
    → i ≢ value_identity_of m
    → All (λ c. i ≢ key_of c) (add_row m bs)
unfolding add_row key_of
All-add_row i m [] a n = (n, tt)
All-add_row i m (b ∷ bs) a n =
    if-cases (All (λ c. i ≢ key_of c)) (same_value (key_of b) (value_identity_of m)) _ _ (λ e. a)
      (λ e. (a.0, All-add_row i m bs a.1 n))

differ : (i j : MeasurementValueIdentity) → same_value i j ≡ false → i ≢ j
differ i j h e = cc ((same_value_iff i j).1 e)

add_row-IsBuckets : (m : Measurement) (bs : List Bucket) → IsBuckets bs → IsBuckets (add_row m bs)
unfolding add_row key_of
add_row-IsBuckets m [] w = ((refl, tt), tt, tt)
add_row-IsBuckets m (b ∷ bs) (rows, apart, w) =
    if-cases IsBuckets (same_value (key_of b) (value_identity_of m)) _ _
      (λ e. (
        (
          rows.0,
          All-append (λ x. value_identity_of x ≡ key_of b) b.rest m rows.1
              (sym ((same_value_iff _ _).0 e)),
        ),
        apart,
        w,
      ))
      (λ e. (rows, All-add_row (key_of b) m bs apart (differ _ _ e), add_row-IsBuckets m bs w))

fill_buckets-IsBuckets :
    (ms : List Measurement) (bs : List Bucket) → IsBuckets bs → IsBuckets (fill_buckets ms bs)
unfolding fill_buckets
fill_buckets-IsBuckets [] bs w = w
fill_buckets-IsBuckets (m ∷ ms) bs w =
    fill_buckets-IsBuckets ms (add_row m bs) (add_row-IsBuckets m bs w)

All-group_of :
    (i : MeasurementValueIdentity) (bs : List Bucket)
    → All (λ c. i ≢ key_of c) bs
    → All (λ g. i ≢ g.identity) (map group_of bs)
unfolding group_of
All-group_of i [] a = tt
All-group_of i (b ∷ bs) a = (a.0, All-group_of i bs a.1)

map-IsPartition : (bs : List Bucket) → IsBuckets bs → IsPartition (map group_of bs)
unfolding group_of
map-IsPartition [] w = tt
map-IsPartition (b ∷ bs) (rows, apart, w) =
    ((rows, refl), All-group_of (key_of b) bs apart, map-IsPartition bs w)

-- The groups of any rows have one value each, different from each other, and count their rows.
pub group_by_value-IsPartition : (rows : List Measurement) → IsPartition (group_by_value rows)
unfolding group_by_value
group_by_value-IsPartition rows =
    map-IsPartition (fill_buckets rows []) (fill_buckets-IsBuckets rows [] tt)

-- A row's value is that of the only group there is.
only-value :
    (gs : List ResolvedMeasurementValueGroup) (m : Measurement)
    → is_single gs ≡ true
    → Memᴰ m (observations_in (value_identity_of m) gs)
    → (g : ResolvedMeasurementValueGroup) × (gs ≡ g ∷ []) × (value_identity_of m ≡ g.identity)
only-value [] m s n = cc
only-value (g ∷ []) m s n = elim (Bool-cases (same_value (value_identity_of m) g.identity)) [
  | inl e ↦ (g, refl, (same_value_iff _ _).0 e)
  | inr e ↦ elim (rw e at n) [ ]
]
only-value (g ∷ h ∷ gs) m s n = cc

-- All rows of a single group have one value.
pub one_value :
    (rows : List Measurement) (m n : Measurement)
    → is_single (group_by_value rows) ≡ true
    → Memᴰ m rows
    → Memᴰ n rows
    → value_identity_of m ≡ value_identity_of n
one_value rows m n s hm hn =
    let (g, e, f) = only-value (group_by_value rows) m s (found m hm) in
    let (g', e', f') = only-value (group_by_value rows) n s (found n hn) in
    let same : g ≡ g' = cc in f ∙ ap (λ x. x.identity) same ∙ sym f'
  where
    found :
        (x : Measurement)
        → Memᴰ x rows
        → Memᴰ x (observations_in (value_identity_of x) (group_by_value rows))
    found x h =
        rw ((group_by_value-observations rows).2 (value_identity_of x))
          (mem-filter (has_value (value_identity_of x)) x rows h ((same_value_iff _ _).1 refl))
