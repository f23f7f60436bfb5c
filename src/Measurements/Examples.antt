-- ===== src/Measurements/Examples.antt =====
-- Runs of measurement queries (pke/src/pke/query/measurement_resolver.py): weights of days 3 and 5.
use jamesbrain.Common.{
  ℕ, ◌*◌, ◌≡◌, ◌≢◌, ◌↔◌, refl, Option, none, some, List, [], ◌∷◌, Memᴰ, filter, Text, arith,
}
use jamesbrain.Temporal.Instant.{DateTime, ZoneData, day_us, utc}
use jamesbrain.Temporal.Knowledge.{TemporalKind, TemporalGranularity, TemporalKnowledge}
use jamesbrain.Temporal.Membership.{TemporalMembership, TimeRange}
use jamesbrain.Measurements.{Measurement, MeasurementQueryMode, MeasurementValueFilter, is_filter}
use jamesbrain.Measurements.Resolver.{
  MeasurementResolutionStatus, PropositionAnswer, Comparison, MeasurementValueIdentity,
  value_identity_of, observation_instant, same_value, key_of, group_of, add_row, fill_buckets,
  group_by_value, measurement_range_membership, filter_comparable,
}
use jamesbrain.Measurements.Modes.{
  latest, latest_by, latest_known, unordered_rows, add_timed, ordered_rows, max_instant, rows_at,
}
use jamesbrain.Common.{All}
use jamesbrain.Measurements.Groups.{
  IsDistinct, HasRows, has_value, observations_in, group_by_value-observations,
}
use jamesbrain.Measurements.Latest.{LatestOf, latest-known}
use jamesbrain.Measurements.Query.{proposition, resolve_measurement_query}
use jamesbrain.Measurements.Proposition.{Fits, proposition-yes_iff}
use jamesbrain.Measurements.Shown.{IsAsked, resolve_measurement_query-shown}

abbrev day : ℕ → DateTime
day d = record { wall = d * day_us; east = day_us }

abbrev zones : ZoneData
zones = record { east_at = λ name wall. day_us; midnights_ordered = λ name d. omega arith }

abbrev no_time : TemporalKnowledge
no_time = record {
  kind = TemporalKind.unknown;
  original_text = 0;
  calendar = none;
  relation_to_reference = none;
  occurrence_status = none;
  unknown_reason = none;
  interval_start = none;
  interval_end = none;
  granularity = TemporalGranularity.unspecified;
  tense_evidence = none;
  source_kind = none;
}

abbrev weight : Text → ℕ → Option DateTime → Measurement
weight i value at = record {
  id = i;
  user_id = 1;
  entity_id = 2;
  context_entity_id = none;
  dimension_key = 7;
  dimension_concept_id = none;
  numeric_value = value;
  unit = some 9;
  currency_code = none;
  temporal = no_time;
  observed_at = at;
}

abbrev old : Measurement
old = weight 10 80 (some (day 3))

abbrev new : Measurement
new = weight 11 78 (some (day 5))

abbrev new_again : Measurement
new_again = weight 12 78 (some (day 5))

abbrev weights : List Measurement
weights = old ∷ new ∷ new_again ∷ []

latest-weights : (latest zones 7 weights).candidate_observations ≡ new ∷ new_again ∷ []
unfolding latest latest_by latest_known unordered_rows ordered_rows add_timed max_instant rows_at
    observation_instant utc group_by_value fill_buckets add_row key_of group_of same_value
    value_identity_of
latest-weights = refl

latest_status : (latest zones 7 weights).status ≡ MeasurementResolutionStatus.known_single
unfolding latest latest_by latest_known unordered_rows ordered_rows add_timed max_instant rows_at
    observation_instant utc group_by_value fill_buckets add_row key_of group_of same_value
    value_identity_of
latest_status = refl

latest-known_example :
    LatestOf zones weights (latest zones 7 weights).candidate_observations
    × ((m n : Measurement)
        → Memᴰ m (latest zones 7 weights).candidate_observations
        → Memᴰ n (latest zones 7 weights).candidate_observations
        → value_identity_of m ≡ value_identity_of n)
latest-known_example = latest-known zones 7 weights latest_status

abbrev seventy_eight : MeasurementValueFilter
seventy_eight = record { numeric_value = 78; unit = some 9; currency_code = none }

group_by_value-observations_example :
    IsDistinct (group_by_value weights)
    × All HasRows (group_by_value weights)
    × ((i : MeasurementValueIdentity)
        → observations_in i (group_by_value weights) ≡ filter (has_value i) weights)
group_by_value-observations_example = group_by_value-observations weights

abbrev days_4_to_6 : TimeRange
days_4_to_6 = record { start = day 4; end = day 6 }

proposition-yes_iff_example :
    ((proposition zones 7 (some seventy_eight) (some days_4_to_6) weights).proposition_answer
      ≡ some PropositionAnswer.yes_answer)
    ↔ (((m : Measurement) × Fits zones 7 seventy_eight weights m
          × (measurement_range_membership zones m days_4_to_6 ≡ TemporalMembership.match))
        × ((o : Measurement)
            → Memᴰ o weights
            → measurement_range_membership zones o days_4_to_6 ≡ TemporalMembership.match
            → filter_comparable o seventy_eight ≢ Comparison.mismatch))
unfolding is_filter
proposition-yes_iff_example = proposition-yes_iff zones 7 seventy_eight weights days_4_to_6 refl

resolve_measurement_query-shown_example :
    let r =
      resolve_measurement_query zones weights 7 MeasurementQueryMode.latest_observation none none
        [] in
    All (IsAsked weights 7 []) r.candidate_observations
    × All (IsAsked weights 7 []) r.unknown_temporal_contributors
    × All (λ g. All (IsAsked weights 7 []) g.observations) r.groups
resolve_measurement_query-shown_example =
    resolve_measurement_query-shown zones weights 7 MeasurementQueryMode.latest_observation none
      none []
