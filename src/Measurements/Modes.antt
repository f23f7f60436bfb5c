-- ===== src/Measurements/Modes.antt =====
-- The modes of a measurement query (pke/src/pke/query/measurement_resolver.py).
use jamesbrain.Common.{
  ℕ, Text, true, false, not, ◌&&◌, Option, none, some, List, [], ◌∷◌, map, if◌then◌else◌, is_some,
  ◌==◌, leb, filter,
}
use jamesbrain.Temporal.Instant.{DateTime, utc, iso_text, ZoneData, day_us}
use jamesbrain.Temporal.Membership.{TimeRange}
use jamesbrain.Measurements.{Measurement, MeasurementQueryMode}
use jamesbrain.Measurements.Resolver.{
  MeasurementResolutionStatus, Note, MeasurementResolverResult, observation_instant, group_by_value,
  partition_temporal, is_nonempty, is_single,
}

-- A result with the defaults of its fields.
abbrev pub result :
    MeasurementResolutionStatus
    → Text
    → MeasurementQueryMode
    → List Note
    → MeasurementResolverResult
result s dimension mode notes = record {
  status = s;
  dimension_key = dimension;
  mode = mode;
  groups = [];
  candidate_observations = [];
  temporal_membership_unknown = false;
  unknown_temporal_contributors = [];
  proposition_answer = none;
  notes = notes;
}

-- `unordered` of `_latest`: the rows of no known time.
unfoldable pub unordered_rows : ZoneData → List Measurement → List Measurement
unfolding observation_instant
unordered_rows zd pool = filter (λ m. not (is_some (observation_instant zd m))) pool

-- A row with its time, before others, if it has one.
unfoldable pub add_timed :
    Option DateTime → Measurement → List (DateTime × Measurement) → List (DateTime × Measurement)
add_timed none m rows = rows
add_timed (some t) m rows = (t, m) ∷ rows

-- `ordered` of `_latest`: the rows of a known time, with it.
unfoldable pub ordered_rows : ZoneData → List Measurement → List (DateTime × Measurement)
unfolding observation_instant add_timed
ordered_rows zd [] = []
ordered_rows zd (m ∷ pool) = add_timed (observation_instant zd m) m (ordered_rows zd pool)

-- `max` of the times: their instant.
unfoldable pub max_instant : List (DateTime × Measurement) → ℕ
max_instant [] = 0
max_instant ((t, m) ∷ rows) =
    let rest = max_instant rows in if leb rest (utc t) then utc t else rest

-- The rows at the instant.
unfoldable pub rows_at : ℕ → List (DateTime × Measurement) → List Measurement
rows_at i rows = map (λ e. e.1) (filter (λ e. utc e.0 == i) rows)

-- The end of `_latest`, where every row has a time.
unfoldable pub latest_known : Text → List Measurement → MeasurementResolverResult
unfolding group_by_value
latest_known dimension at_max =
    let base =
      result MeasurementResolutionStatus.known_single dimension
        MeasurementQueryMode.latest_observation [] in
    if is_single (group_by_value at_max)
    then record base {
      groups = group_by_value at_max;
      candidate_observations = at_max;
      notes = Note.latest_by_observed_instant ∷ [];
    }
    else record base {
      status = MeasurementResolutionStatus.ambiguous;
      groups = group_by_value at_max;
      candidate_observations = at_max;
      notes = Note.latest_by_observed_instant ∷ Note.conflicting_values_at_latest_instant ∷ [];
    }

-- `_latest` of the rows without a time and those with one.
unfoldable pub latest_by :
    Text
    → List Measurement
    → List Measurement
    → List (DateTime × Measurement)
    → MeasurementResolverResult
unfolding latest_known max_instant rows_at
latest_by dimension pool [] ordered = latest_known dimension (rows_at (max_instant ordered) ordered)
latest_by dimension pool (u ∷ unordered) [] =
    let base =
      result MeasurementResolutionStatus.temporally_unknown dimension
        MeasurementQueryMode.latest_observation [] in
    record base {
      candidate_observations = u ∷ unordered;
      temporal_membership_unknown = true;
      unknown_temporal_contributors = u ∷ unordered;
      notes = Note.all_observations_time_unknown ∷ [];
    }
latest_by dimension pool (u ∷ unordered) (o ∷ ordered) =
    let base =
      result MeasurementResolutionStatus.ambiguous dimension MeasurementQueryMode.latest_observation
        [] in
    record base {
      candidate_observations = pool;
      temporal_membership_unknown = true;
      unknown_temporal_contributors = u ∷ unordered;
      notes = Note.unknown_time_blocks_latest_certainty ∷ [];
    }

-- `_latest`
unfoldable pub latest : ZoneData → Text → List Measurement → MeasurementResolverResult
unfolding latest_by unordered_rows ordered_rows
latest zd dimension [] =
    result MeasurementResolutionStatus.unknown dimension MeasurementQueryMode.latest_observation
      (Note.no_measurement_rows ∷ [])
latest zd dimension (m ∷ pool) =
    latest_by dimension (m ∷ pool) (unordered_rows zd (m ∷ pool)) (ordered_rows zd (m ∷ pool))

-- `_at_time`, of the rows that match and those that may match.
unfoldable pub at_time_of : Text → List Measurement → List Measurement → MeasurementResolverResult
unfolding group_by_value
at_time_of dimension [] [] =
    result MeasurementResolutionStatus.unknown dimension MeasurementQueryMode.observation_at_time
      (Note.no_temporal_match ∷ Note.not_current_from_latest ∷ [])
at_time_of dimension [] (u ∷ us) =
    let base =
      result MeasurementResolutionStatus.temporally_unknown dimension
        MeasurementQueryMode.observation_at_time [] in
    record base {
      candidate_observations = u ∷ us;
      temporal_membership_unknown = true;
      unknown_temporal_contributors = u ∷ us;
      notes = Note.temporal_membership_unknown ∷ [];
    }
at_time_of dimension (m ∷ ms) us =
    let base =
      result MeasurementResolutionStatus.known_single dimension
        MeasurementQueryMode.observation_at_time [] in
    let single = is_single (group_by_value (m ∷ ms)) in
    record base {
      status =
          if single
          then MeasurementResolutionStatus.known_single
          else MeasurementResolutionStatus.ambiguous;
      groups = group_by_value (m ∷ ms);
      candidate_observations = m ∷ ms;
      temporal_membership_unknown = is_nonempty us;
      unknown_temporal_contributors = us;
      notes = if single then [] else Note.conflicting_values_at_time ∷ [];
    }

-- `_at_time`
unfoldable pub at_time :
    ZoneData → Text → Option TimeRange → List Measurement → MeasurementResolverResult
unfolding at_time_of partition_temporal
at_time zd dimension none pool =
    result MeasurementResolutionStatus.unknown dimension MeasurementQueryMode.observation_at_time
      (Note.observation_at_time_requires_time_range ∷ [])
at_time zd dimension (some q) [] =
    result MeasurementResolutionStatus.unknown dimension MeasurementQueryMode.observation_at_time
      (Note.no_measurement_rows ∷ [])
at_time zd dimension (some q) (m ∷ pool) =
    let parts = partition_temporal zd (m ∷ pool) (some q) in at_time_of dimension parts.0 parts.1

-- `dt.datetime.min` of UTC
abbrev datetime_min : DateTime
datetime_min = record { wall = 0; east = day_us }

-- The key by which `_range` sorts.
unfoldable pub instant_text : ZoneData → Measurement → Text
unfolding observation_instant
instant_text zd m = elim (observation_instant zd m) [
  | some t ↦ iso_text t
  | none ↦ iso_text datetime_min
]

-- `sorted` by the key: stable, so a row goes before its equals among the later ones.
unfoldable pub insert_by_text : ZoneData → Measurement → List Measurement → List Measurement
unfolding instant_text
insert_by_text zd m [] = m ∷ []
insert_by_text zd m (n ∷ ns) =
    let rest = insert_by_text zd m ns in
    if leb (instant_text zd m) (instant_text zd n) then m ∷ n ∷ ns else n ∷ rest

unfoldable pub sort_by_text : ZoneData → List Measurement → List Measurement
unfolding insert_by_text
sort_by_text zd [] = []
sort_by_text zd (m ∷ ms) = insert_by_text zd m (sort_by_text zd ms)

-- `_range`, of the rows that match, sorted where there are any, and those that may match.
unfoldable pub range_of :
    ZoneData → Text → List Measurement → List Measurement → MeasurementResolverResult
unfolding group_by_value sort_by_text
range_of zd dimension [] [] =
    result MeasurementResolutionStatus.unknown dimension MeasurementQueryMode.observations_in_range
      (Note.no_range_match ∷ [])
range_of zd dimension [] (u ∷ us) =
    let base =
      result MeasurementResolutionStatus.temporally_unknown dimension
        MeasurementQueryMode.observations_in_range [] in
    record base {
      candidate_observations = u ∷ us;
      temporal_membership_unknown = true;
      unknown_temporal_contributors = u ∷ us;
      notes = Note.range_only_unknown_membership ∷ [];
    }
range_of zd dimension (m ∷ ms) us =
    let base =
      result MeasurementResolutionStatus.known_multiple dimension
        MeasurementQueryMode.observations_in_range [] in
    let known_sorted = sort_by_text zd (m ∷ ms) in
    record base {
      status =
          if is_single (group_by_value known_sorted) && is_single known_sorted
          then MeasurementResolutionStatus.known_single
          else MeasurementResolutionStatus.known_multiple;
      groups = group_by_value known_sorted;
      candidate_observations = known_sorted;
      temporal_membership_unknown = is_nonempty us;
      unknown_temporal_contributors = us;
      notes = if is_nonempty us then Note.range_has_unknown_temporal_contributors ∷ [] else [];
    }

-- `_range`
unfoldable pub in_range :
    ZoneData → Text → Option TimeRange → List Measurement → MeasurementResolverResult
unfolding range_of partition_temporal
in_range zd dimension q [] =
    result MeasurementResolutionStatus.unknown dimension MeasurementQueryMode.observations_in_range
      (Note.no_measurement_rows ∷ [])
in_range zd dimension q (m ∷ pool) =
    let parts = partition_temporal zd (m ∷ pool) q in range_of zd dimension parts.0 parts.1
