-- ===== src/Measurements/Groups.antt =====
-- What `_group_by_value` of pke/src/pke/query/measurement_resolver.py makes of its rows.
use jamesbrain.Common.{
  Bool, true, false, ◌≡◌, ◌↔◌, inl, inr, refl, sym, ap, ◌∙◌, List, [], ◌∷◌, ◌++◌, map,
  if◌then◌else◌, both-true, All, if-cases, Bool-cases, ==_iff, same_text_iff, filter,
}
use jamesbrain.Measurements.{Measurement}
use jamesbrain.Measurements.Resolver.{
  MeasurementValueIdentity, ResolvedMeasurementValueGroup, Bucket, rows_of, key_of,
  value_identity_of, same_value, add_row, fill_buckets, group_of, group_by_value,
}

pub same_value_iff : (a b : MeasurementValueIdentity) → (same_value a b ≡ true) ↔ (a ≡ b)
unfolding same_value
same_value_iff a b = (equal, λ e. rw (← e) alike)
  where
    equal : same_value a b ≡ true → a ≡ b
    equal h =
        let (n, h') = both-true _ _ h in
        let (u, c) = both-true _ _ h' in
        let e : a.numeric_value ≡ b.numeric_value = (==_iff _ _).0 n in
        let f : a.unit ≡ b.unit = (same_text_iff _ _).0 u in
        let g : a.currency_code ≡ b.currency_code = (same_text_iff _ _).0 c in cc

    alike : same_value a a ≡ true
    alike = rw ((==_iff a.numeric_value a.numeric_value).1 refl) (
        rw ((same_text_iff a.unit a.unit).1 refl)
          ((same_text_iff a.currency_code a.currency_code).1 refl))

abbrev pub has_value : MeasurementValueIdentity → Measurement → Bool
has_value i m = same_value i (value_identity_of m)

-- The rows of the first bucket of an identity.
rows_in : MeasurementValueIdentity → List Bucket → List Measurement
rows_in i [] = []
rows_in i (b ∷ bs) = if same_value i (key_of b) then rows_of b else rows_in i bs

-- The observations of the first group of an identity.
abbrev pub observations_in :
    MeasurementValueIdentity → List ResolvedMeasurementValueGroup → List Measurement
observations_in i [] = []
observations_in i (g ∷ gs) =
    let rest = observations_in i gs in if same_value i g.identity then g.observations else rest

append-nil : (xs : List Measurement) → xs ++ [] ≡ xs
append-nil [] = refl
append-nil (x ∷ xs) = ap (λ ys. x ∷ ys) (append-nil xs)

append_assoc : (xs ys zs : List Measurement) → (xs ++ ys) ++ zs ≡ xs ++ (ys ++ zs)
append_assoc [] ys zs = refl
append_assoc (x ∷ xs) ys zs = ap (λ l. x ∷ l) (append_assoc xs ys zs)

abbrev if_value : MeasurementValueIdentity → Measurement → List Measurement
if_value i m = if has_value i m then m ∷ [] else []

module _ (i : MeasurementValueIdentity) where
  rows_in-first :
      (b : Bucket) (bs : List Bucket)
      → same_value i (key_of b) ≡ true
      → rows_in i (b ∷ bs) ≡ rows_of b
  unfolding rows_in
  rows_in-first b bs h = rw h refl

  rows_in-later :
      (b : Bucket) (bs : List Bucket)
      → same_value i (key_of b) ≡ false
      → rows_in i (b ∷ bs) ≡ rows_in i bs
  unfolding rows_in
  rows_in-later b bs h = rw h refl

  add_row-rows_in :
      (m : Measurement) (bs : List Bucket) → rows_in i (add_row m bs) ≡ rows_in i bs ++ if_value i m
  unfolding add_row rows_in key_of
  add_row-rows_in m [] = refl
  add_row-rows_in m (b ∷ bs) = elim (Bool-cases (same_value (key_of b) (value_identity_of m))) [
    | inl e ↦ rw e (joined e)
    | inr e ↦ rw e (passed e (add_row-rows_in m bs))
  ]
    where
      joined :
          same_value (key_of b) (value_identity_of m) ≡ true
          → rows_in i (record b { rest = b.rest ++ (m ∷ []) } ∷ bs)
            ≡ rows_in i (b ∷ bs) ++ if_value i m
      joined e =
          let same : key_of b ≡ value_identity_of m = (same_value_iff _ _).0 e in
          elim (Bool-cases (same_value i (key_of b))) [
            | inl f ↦
                let g : has_value i m ≡ true = sym (ap (same_value i) same) ∙ f in rw f (rw g refl)
            | inr f ↦
                let g : has_value i m ≡ false = sym (ap (same_value i) same) ∙ f in
                rw f (rw g (sym (append-nil (rows_in i bs))))
          ]

      passed :
          same_value (key_of b) (value_identity_of m) ≡ false
          → rows_in i (add_row m bs) ≡ rows_in i bs ++ if_value i m
          → rows_in i (b ∷ add_row m bs) ≡ rows_in i (b ∷ bs) ++ if_value i m
      passed e ih = elim (Bool-cases (same_value i (key_of b))) [
        | inl f ↦
            let same : i ≡ key_of b = (same_value_iff _ _).0 f in
            let g : has_value i m ≡ false = ap (λ x. same_value x (value_identity_of m)) same ∙ e in
            rw f (rw g (sym (append-nil (rows_of b))))
        | inr f ↦ rw f ih
      ]

  filter-step :
      (m : Measurement) (ms : List Measurement)
      → if_value i m ++ filter (has_value i) ms ≡ filter (has_value i) (m ∷ ms)
  filter-step m ms = elim (Bool-cases (has_value i m)) [ inl e ↦ rw e refl | inr e ↦ rw e refl ]

  fill_buckets-rows_in :
      (ms : List Measurement) (bs : List Bucket)
      → rows_in i (fill_buckets ms bs) ≡ rows_in i bs ++ filter (has_value i) ms
  unfolding fill_buckets
  fill_buckets-rows_in [] bs = sym (append-nil (rows_in i bs))
  fill_buckets-rows_in (m ∷ ms) bs =
      fill_buckets-rows_in ms (add_row m bs)
      ∙ ap (λ l. l ++ filter (has_value i) ms) (add_row-rows_in m bs)
      ∙ append_assoc (rows_in i bs) (if_value i m) (filter (has_value i) ms)
      ∙ ap (λ l. rows_in i bs ++ l) (filter-step m ms)

  observations_in-map : (bs : List Bucket) → observations_in i (map group_of bs) ≡ rows_in i bs
  unfolding group_of rows_in
  observations_in-map [] = refl
  observations_in-map (b ∷ bs) = elim (Bool-cases (same_value i (key_of b))) [
    | inl e ↦ rw e refl
    | inr e ↦ rw e (observations_in-map bs)
  ]

-- No group before it is of the value.
abbrev pub IsNewValue : MeasurementValueIdentity → List ResolvedMeasurementValueGroup → Type 0
IsNewValue i gs = All (λ g. same_value i g.identity ≡ false) gs

-- No two groups are of one value.
abbrev pub IsDistinct : List ResolvedMeasurementValueGroup → Type 0
IsDistinct [] = Unit
IsDistinct (g ∷ gs) = IsNewValue g.identity gs × IsDistinct gs

-- No two buckets have one key.
abbrev Apart : List Bucket → Type 0
Apart [] = Unit
Apart (b ∷ bs) = All (λ c. same_value (key_of b) (key_of c) ≡ false) bs × Apart bs

add_row-others :
    (i : MeasurementValueIdentity) (m : Measurement) (bs : List Bucket)
    → same_value i (value_identity_of m) ≡ false
    → All (λ c. same_value i (key_of c) ≡ false) bs
    → All (λ c. same_value i (key_of c) ≡ false) (add_row m bs)
unfolding add_row key_of
add_row-others i m [] n a = (n, tt)
add_row-others i m (b ∷ bs) n (h, a) =
    if-cases (All (λ c. same_value i (key_of c) ≡ false))
      (same_value (key_of b) (value_identity_of m)) _ _ (λ e. (h, a))
      (λ e. (h, add_row-others i m bs n a))

add_row-Apart : (m : Measurement) (bs : List Bucket) → Apart bs → Apart (add_row m bs)
unfolding add_row key_of
add_row-Apart m [] a = (tt, tt)
add_row-Apart m (b ∷ bs) (h, a) =
    if-cases Apart (same_value (key_of b) (value_identity_of m)) _ _ (λ e. (h, a))
      (λ e. (add_row-others (key_of b) m bs e h, add_row-Apart m bs a))

fill_buckets-Apart :
    (ms : List Measurement) (bs : List Bucket) → Apart bs → Apart (fill_buckets ms bs)
unfolding fill_buckets
fill_buckets-Apart [] bs a = a
fill_buckets-Apart (m ∷ ms) bs a = fill_buckets-Apart ms (add_row m bs) (add_row-Apart m bs a)

All-group_of :
    (i : MeasurementValueIdentity) (bs : List Bucket)
    → All (λ c. same_value i (key_of c) ≡ false) bs
    → IsNewValue i (map group_of bs)
unfolding group_of
All-group_of i [] a = tt
All-group_of i (b ∷ bs) (h, a) = (h, All-group_of i bs a)

groups-IsDistinct : (bs : List Bucket) → Apart bs → IsDistinct (map group_of bs)
unfolding group_of
groups-IsDistinct [] a = tt
groups-IsDistinct (b ∷ bs) (h, a) = (All-group_of (key_of b) bs h, groups-IsDistinct bs a)

-- A group is of the value of its first row.
abbrev pub HasRows : ResolvedMeasurementValueGroup → Type 0
HasRows g =
    (m : Measurement) × (ms : List Measurement) × (g.observations ≡ m ∷ ms)
    × (g.identity ≡ value_identity_of m)

groups-HasRows : (bs : List Bucket) → All HasRows (map group_of bs)
unfolding group_of key_of
groups-HasRows [] = tt
groups-HasRows (b ∷ bs) = ((b.first, b.rest, refl, refl), groups-HasRows bs)

-- The rows are grouped by their values: no two groups are of one value, none is without rows, and the
-- group of a value holds the rows of that value, all of them in their order.
pub group_by_value-observations :
    (rows : List Measurement)
    → IsDistinct (group_by_value rows)
      × All HasRows (group_by_value rows)
      × ((i : MeasurementValueIdentity)
          → observations_in i (group_by_value rows) ≡ filter (has_value i) rows)
unfolding group_by_value rows_in
group_by_value-observations rows = (
  groups-IsDistinct (fill_buckets rows []) (fill_buckets-Apart rows [] tt),
  groups-HasRows (fill_buckets rows []),
  λ i. observations_in-map i (fill_buckets rows []) ∙ fill_buckets-rows_in i rows [],
)
