-- ===== src/Measurements/Query.antt =====
-- Propositions on a measured value, and the query of any mode
-- (pke/src/pke/query/measurement_resolver.py).
use jamesbrain.Common.{
  Text, Bool, true, false, not, ◌&&◌, ◌||◌, Option, none, some, List, [], ◌∷◌, ◌++◌, if◌then◌else◌,
  ◌==◌, filter,
}
use jamesbrain.Temporal.Instant.{ZoneData}
use jamesbrain.Temporal.Membership.{TimeRange}
use jamesbrain.Measurements.{Measurement, MeasurementQueryMode, MeasurementValueFilter, is_filter}
use jamesbrain.Measurements.Resolver.{
  MeasurementResolutionStatus, PropositionAnswer, ResolvedMeasurementValueGroup, Note,
  MeasurementResolverResult, Comparison, group_by_value, units_comparable, filter_comparable,
  partition_temporal, is_nonempty, is_single,
}
use jamesbrain.Measurements.Modes.{result, latest, at_time, in_range}

abbrev pub is_match_value : Comparison → Bool
is_match_value Comparison.match_value = true
is_match_value _ = false

abbrev pub is_mismatch : Comparison → Bool
is_mismatch Comparison.mismatch = true
is_mismatch _ = false

abbrev pub is_incomparable : Comparison → Bool
is_incomparable Comparison.incomparable = true
is_incomparable _ = false

abbrev answered :
    MeasurementResolutionStatus
    → PropositionAnswer
    → Text
    → List Measurement
    → List Note
    → MeasurementResolverResult
answered s a dimension rows notes =
    let base = result s dimension MeasurementQueryMode.value_proposition notes in
    record base { candidate_observations = rows; proposition_answer = some a }

-- A result that answers yes on the rows.
unfoldable pub yes_on : Text → List Measurement → Note → MeasurementResolverResult
unfolding group_by_value
yes_on dimension rows note =
    let base =
      answered
        (if is_single (group_by_value rows)
          then MeasurementResolutionStatus.known_single
          else MeasurementResolutionStatus.known_multiple)
        PropositionAnswer.yes_answer dimension rows (note ∷ []) in
    record base { groups = group_by_value rows }

-- A row of another value of the same unit.
abbrev pub conflicting : MeasurementValueFilter → Measurement → Bool
conflicting f o =
    is_mismatch (filter_comparable o f)
    && units_comparable o.unit o.currency_code f.unit f.currency_code

-- `other_vals`: the rows that conflict.
unfoldable pub conflicts : MeasurementValueFilter → List Measurement → List Measurement
unfolding filter_comparable units_comparable
conflicts f rows = filter (conflicting f) rows

-- The branch of `_proposition` with a time range: the rows that match value and range, those that
-- may match the range, and the conflicting ones of the range.
unfoldable pub proposition_in :
    Text → List Measurement → List Measurement → List Measurement → MeasurementResolverResult
unfolding yes_on group_by_value
proposition_in dimension [] [] others =
    answered MeasurementResolutionStatus.unknown PropositionAnswer.unknown_answer dimension []
      (Note.proposition_no_temporal_match ∷ Note.absence_not_no ∷ [])
proposition_in dimension [] (u ∷ us) others =
    let base =
      answered MeasurementResolutionStatus.temporally_unknown
        PropositionAnswer.temporally_unknown_answer dimension (u ∷ us)
        (Note.proposition_temporal_unknown ∷ []) in
    record base { temporal_membership_unknown = true; unknown_temporal_contributors = u ∷ us }
proposition_in dimension (m ∷ ms) us [] = yes_on dimension (m ∷ ms) Note.proposition_temporal_match
proposition_in dimension (m ∷ ms) us (o ∷ os) =
    let rows = (m ∷ ms) ++ (o ∷ os) in
    let base =
      answered MeasurementResolutionStatus.ambiguous PropositionAnswer.ambiguous_answer dimension
        rows (Note.conflicting_values_at_scope ∷ []) in
    record base { groups = group_by_value rows }

-- The end of `_proposition`: the rows of the value, those that cannot be compared with it.
unfoldable pub proposition_of :
    ZoneData
    → Text
    → MeasurementValueFilter
    → Option TimeRange
    → List Measurement
    → List Measurement
    → List Measurement
    → MeasurementResolverResult
unfolding proposition_in yes_on partition_temporal conflicts
proposition_of zd dimension f q pool [] [] =
    answered MeasurementResolutionStatus.unknown PropositionAnswer.unknown_answer dimension []
      (Note.no_matching_value ∷ Note.absence_not_no ∷ [])
proposition_of zd dimension f q pool [] (i ∷ is) =
    answered MeasurementResolutionStatus.unknown PropositionAnswer.unknown_answer dimension (i ∷ is)
      (Note.unit_or_currency_incomparable ∷ [])
proposition_of zd dimension f (some q) pool (m ∷ ms) is =
    let parts = partition_temporal zd (m ∷ ms) (some q) in
    proposition_in dimension parts.0 parts.1 (conflicts f (partition_temporal zd pool (some q)).0)
proposition_of zd dimension f none pool (m ∷ ms) is =
    yes_on dimension (m ∷ ms) Note.proposition_historical_existence

-- `_proposition`
unfoldable pub proposition :
    ZoneData
    → Text
    → Option MeasurementValueFilter
    → Option TimeRange
    → List Measurement
    → MeasurementResolverResult
unfolding proposition_of filter_comparable is_filter
proposition zd dimension none q pool =
    answered MeasurementResolutionStatus.unknown PropositionAnswer.unknown_answer dimension []
      (Note.proposition_requires_value_filter ∷ [])
proposition zd dimension (some f) q pool =
    if not (is_filter f)
    then answered MeasurementResolutionStatus.unknown PropositionAnswer.unknown_answer dimension []
        (Note.unit_currency_coexist_invalid ∷ [])
    else proposition_of zd dimension f q pool
        (filter (λ m. is_match_value (filter_comparable m f)) pool)
        (filter (λ m. is_incomparable (filter_comparable m f)) pool)

-- `m.context_entity_id in set(ids)`
unfoldable pub is_context : List Text → Option Text → Bool
is_context ids none = false
is_context [] (some c) = false
is_context (i ∷ ids) (some c) = i == c || is_context ids (some c)

-- The rows of the dimension, and of the contexts where some are given.
unfoldable pub pool_of : Text → List Text → List Measurement → List Measurement
unfolding is_context
pool_of dimension contexts observations =
    let pool = filter (λ m. m.dimension_key == dimension) observations in
    if is_nonempty contexts
    then filter (λ m. is_context contexts m.context_entity_id) pool
    else pool

unfoldable pub resolve_pool :
    ZoneData
    → Text
    → MeasurementQueryMode
    → Option MeasurementValueFilter
    → Option TimeRange
    → List Measurement
    → MeasurementResolverResult
unfolding latest at_time in_range proposition
resolve_pool zd dimension MeasurementQueryMode.latest_observation f q pool =
    latest zd dimension pool
resolve_pool zd dimension MeasurementQueryMode.observations_in_range f q pool =
    in_range zd dimension q pool
resolve_pool zd dimension MeasurementQueryMode.observation_at_time f q pool =
    at_time zd dimension q pool
resolve_pool zd dimension MeasurementQueryMode.value_proposition f q pool =
    proposition zd dimension f q pool

unfoldable pub resolve_measurement_query :
    ZoneData
    → List Measurement
    → Text
    → MeasurementQueryMode
    → Option MeasurementValueFilter
    → Option TimeRange
    → List Text
    → MeasurementResolverResult
unfolding resolve_pool pool_of
resolve_measurement_query zd observations dimension mode f q contexts =
    resolve_pool zd dimension mode f q (pool_of dimension contexts observations)

unfoldable pub observable_value_groups :
    MeasurementResolverResult → List ResolvedMeasurementValueGroup
unfolding group_by_value
observable_value_groups r =
    if is_nonempty r.groups
    then r.groups
    else if is_nonempty r.candidate_observations
    then group_by_value r.candidate_observations
    else []
