-- ===== src/Measurements/Resolver.antt =====
-- The resolution of measurement queries (pke/src/pke/query/measurement_resolver.py). A function that
-- reads the zone database takes it first.
use jamesbrain.Common.{
  ℕ, Text, Bool, true, false, not, ◌&&◌, ◌||◌, Option, none, some, List, [], ◌∷◌, ◌++◌, map,
  if◌then◌else◌, is_some, is_filled, same_text, ◌==◌, filter, length,
}
use jamesbrain.Temporal.Instant.{DateTime, ZoneData}
use jamesbrain.Temporal.Membership.{
  TemporalMembership, TemporalMembershipRole, TimeRange, range_membership, temporal_instant,
  instant_membership,
}
use jamesbrain.Measurements.{Decimal, Measurement, MeasurementQueryMode, MeasurementValueFilter}

pub data MeasurementResolutionStatus : Type 0 where
  known_single known_multiple unknown temporally_unknown ambiguous : MeasurementResolutionStatus

-- `PropositionAnswer`: there is no answer "no".
pub data PropositionAnswer : Type 0 where
  yes_answer unknown_answer ambiguous_answer temporally_unknown_answer : PropositionAnswer

pub record MeasurementValueIdentity : Type 0 where
  pub numeric_value : Decimal
  pub unit : Option Text
  pub currency_code : Option Text

pub record ResolvedMeasurementValueGroup : Type 0 where
  pub identity : MeasurementValueIdentity
  pub observations : List Measurement
  pub support_count : ℕ

-- The notes of a result.
pub data Note : Type 0 where
  no_measurement_rows unknown_time_blocks_latest_certainty all_observations_time_unknown : Note
  latest_by_observed_instant conflicting_values_at_latest_instant : Note
  observation_at_time_requires_time_range temporal_membership_unknown no_temporal_match : Note
  not_current_from_latest conflicting_values_at_time range_only_unknown_membership : Note
  no_range_match range_has_unknown_temporal_contributors proposition_requires_value_filter : Note
  unit_currency_coexist_invalid unit_or_currency_incomparable no_matching_value : Note
  absence_not_no conflicting_values_at_scope proposition_temporal_match : Note
  proposition_temporal_unknown proposition_no_temporal_match proposition_historical_existence : Note

pub record MeasurementResolverResult : Type 0 where
  pub status : MeasurementResolutionStatus
  pub dimension_key : Text
  pub mode : MeasurementQueryMode
  pub groups : List ResolvedMeasurementValueGroup
  pub candidate_observations : List Measurement
  pub temporal_membership_unknown : Bool
  pub unknown_temporal_contributors : List Measurement
  pub proposition_answer : Option PropositionAnswer
  pub notes : List Note

unfoldable pub observation_instant : ZoneData → Measurement → Option DateTime
unfolding temporal_instant
observation_instant zd m = elim m.observed_at [
  | some t ↦ some t
  | none ↦ temporal_instant zd m.temporal
]

unfoldable pub value_identity_of : Measurement → MeasurementValueIdentity
value_identity_of m = record {
  numeric_value = m.numeric_value;
  unit = m.unit;
  currency_code = m.currency_code;
}

-- Equality of `as_key`.
unfoldable pub same_value : MeasurementValueIdentity → MeasurementValueIdentity → Bool
same_value a b =
    a.numeric_value == b.numeric_value
    && (same_text a.unit b.unit && same_text a.currency_code b.currency_code)

-- One bucket of `_group_by_value`: its first row and the rows appended to it.
pub record Bucket : Type 0 where
  pub first : Measurement
  pub rest : List Measurement

abbrev pub rows_of : Bucket → List Measurement
rows_of b = b.first ∷ b.rest

unfoldable pub key_of : Bucket → MeasurementValueIdentity
unfolding value_identity_of
key_of b = value_identity_of b.first

-- One round of the loop: the row goes to the bucket of its key, or to a new one at the end.
unfoldable pub add_row : Measurement → List Bucket → List Bucket
unfolding key_of same_value
add_row m [] = record { first = m; rest = [] } ∷ []
add_row m (b ∷ bs) =
    if same_value (key_of b) (value_identity_of m)
    then record b { rest = b.rest ++ (m ∷ []) } ∷ bs
    else b ∷ add_row m bs

unfoldable pub fill_buckets : List Measurement → List Bucket → List Bucket
unfolding add_row
fill_buckets [] bs = bs
fill_buckets (m ∷ ms) bs = fill_buckets ms (add_row m bs)

unfoldable pub group_of : Bucket → ResolvedMeasurementValueGroup
unfolding key_of
group_of b = record {
  identity = key_of b;
  observations = rows_of b;
  support_count = length (rows_of b);
}

-- `_group_by_value`
unfoldable pub group_by_value : List Measurement → List ResolvedMeasurementValueGroup
unfolding fill_buckets group_of
group_by_value rows = map group_of (fill_buckets rows [])

-- `text or None`
abbrev pub or_none : Option Text → Option Text
or_none t = if is_filled t then t else none

-- `_units_comparable`
unfoldable pub units_comparable : Option Text → Option Text → Option Text → Option Text → Bool
units_comparable a_unit a_cur b_unit b_cur =
    if is_filled a_cur || is_filled b_cur
    then same_text (or_none a_cur) (or_none b_cur) && (not (is_some a_unit) && not (is_some b_unit))
    else same_text a_unit b_unit

pub data Comparison : Type 0 where
  match_value mismatch incomparable : Comparison

unfoldable pub filter_comparable : Measurement → MeasurementValueFilter → Comparison
unfolding units_comparable
filter_comparable m f =
    if not (units_comparable m.unit m.currency_code f.unit f.currency_code)
    then Comparison.incomparable
    else if not (m.numeric_value == f.numeric_value)
    then Comparison.mismatch
    else Comparison.match_value

unfoldable pub measurement_range_membership :
    ZoneData → Measurement → TimeRange → TemporalMembership
unfolding instant_membership range_membership
measurement_range_membership zd m q = elim m.observed_at [
  | some t ↦ instant_membership t q
  | none ↦ range_membership zd m.temporal q TemporalMembershipRole.observation_scope
]

abbrev pub is_match : TemporalMembership → Bool
is_match TemporalMembership.match = true
is_match _ = false

abbrev pub is_unknown_membership : TemporalMembership → Bool
is_unknown_membership TemporalMembership.unknown = true
is_unknown_membership _ = false

-- `_partition_temporal`, its first two lists; the third is whether the second holds a row.
unfoldable pub partition_temporal :
    ZoneData → List Measurement → Option TimeRange → List Measurement × List Measurement
unfolding measurement_range_membership
partition_temporal zd rows none = (rows, [])
partition_temporal zd rows (some q) = (
  filter (λ m. is_match (measurement_range_membership zd m q)) rows,
  filter (λ m. is_unknown_membership (measurement_range_membership zd m q)) rows,
)

-- `bool(rows)`
abbrev pub is_nonempty {ℓ} : {A : Type ℓ} → List A → Bool
is_nonempty [] = false
is_nonempty (_ ∷ _) = true

abbrev pub is_single {ℓ} : {A : Type ℓ} → List A → Bool
is_single (_ ∷ []) = true
is_single _ = false
