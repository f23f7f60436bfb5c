-- ===== src/Temporal/Examples.antt =====
-- The theorems on times at concrete values: a zone database whose zones are all UTC, the days 10 to 12,
-- and facts of one day.
use jamesbrain.Common.{ℕ, ◌+◌, ◌*◌, ◌≤◌, ◌≡◌, ◌↔◌, ◌⊎◌, refl, true, false, none, some, arith}
use jamesbrain.Temporal.Instant.{DateTime, utc, day_us, ZoneData, east_of, midnight}
use jamesbrain.Temporal.Value.{TimePrecision, TimeValue}
use jamesbrain.Temporal.Knowledge.{
  TemporalKind, RelationToReference, OccurrenceStatus, TemporalUnknownReason, TemporalGranularity,
  TemporalSourceKind, TemporalKnowledge, calendar_granularity,
}
use jamesbrain.Temporal.Membership.{
  TemporalMembership, TemporalMembershipRole, TimeRange, occurrence_possible_window, sort_key,
  temporal_instant, calendar_instant, range_membership, validity_interval_membership,
}
use jamesbrain.Temporal.Membership.Coarse.{
  InRange, InWindow, Possible, Verdict, range_membership-Verdict,
}
use jamesbrain.Temporal.Membership.Validity.{
  validity-match_iff, validity-no_match_iff, validity_fill,
}
use jamesbrain.Temporal.Membership.Windows.{occurrence_possible_window_ordered, sort_key-wall_order}
use jamesbrain.Ranking.{key_lt}

-- A day of the UTC calendar, by its ordinal.
abbrev day : ℕ → DateTime
day d = record { wall = d * day_us; east = day_us }

abbrev zones : ZoneData
zones = record { east_at = λ name wall. day_us; midnights_ordered = λ name d. omega arith }

abbrev days_10_11 : TimeRange
days_10_11 = record { start = day 10; end = day 12 }

abbrev day_10 : TimeValue
day_10 = record {
  original_text = 5;
  instant = none;
  date = some 10;
  period_start = none;
  period_end = none;
  timezone = none;
  recurrence = none;
  precision = TimePrecision.day;
  resolution_rule = none;
}

abbrev on_day_10 : TemporalKnowledge
on_day_10 = record {
  kind = TemporalKind.exact;
  original_text = 5;
  calendar = some day_10;
  relation_to_reference = none;
  occurrence_status = none;
  unknown_reason = none;
  interval_start = none;
  interval_end = none;
  granularity = TemporalGranularity.day;
  tense_evidence = none;
  source_kind = some TemporalSourceKind.resolved;
}

-- "at some time", told with no calendar value
abbrev some_time : TemporalKnowledge
some_time = record {
  kind = TemporalKind.partial;
  original_text = 6;
  calendar = none;
  relation_to_reference = some RelationToReference.before;
  occurrence_status = some OccurrenceStatus.happened;
  unknown_reason = some TemporalUnknownReason.not_provided;
  interval_start = none;
  interval_end = none;
  granularity = TemporalGranularity.unspecified;
  tense_evidence = none;
  source_kind = some TemporalSourceKind.grammatical_evidence;
}

range_membership-Verdict_example :
    Verdict
      (range_membership zones on_day_10 days_10_11 TemporalMembershipRole.occurrence_window)
      (Possible zones on_day_10)
      days_10_11
range_membership-Verdict_example =
    range_membership-Verdict zones on_day_10 days_10_11 TemporalMembershipRole.occurrence_window
      (λ e. cc)

validity-match_iff_example :
    (validity_interval_membership (some (day 9)) (some (day 13)) days_10_11 false
      ≡ TemporalMembership.match)
    ↔ ((x : ℕ) → InRange days_10_11 x → InWindow (day 9) (day 13) x)
unfolding utc
validity-match_iff_example = validity-match_iff (day 9) (day 13) days_10_11 false (omega arith)

validity-no_match_iff_example :
    (validity_interval_membership (some (day 8)) (some (day 9)) days_10_11 false
      ≡ TemporalMembership.no_match)
    ↔ ((x : ℕ) → InRange days_10_11 x → ¬ InWindow (day 8) (day 9) x)
unfolding utc
validity-no_match_iff_example =
    validity-no_match_iff (day 8) (day 9) days_10_11 false (omega arith) (omega arith)

validity_fill_example :
    (validity_interval_membership (some (day 9)) none days_10_11 true ≡ TemporalMembership.unknown)
    ⊎ (validity_interval_membership (some (day 9)) none days_10_11 true
        ≡ validity_interval_membership (some (day 9)) (some (day 13)) days_10_11 true)
unfolding utc
validity_fill_example =
    validity_fill (some (day 9)) none (day 9) (day 13) days_10_11 true (omega arith) (omega arith)
      (λ a e. cc) (λ b e. cc) (λ o e. omega arith)

occurrence_possible_window_ordered_example : utc (day 10) ≤ utc (day 11)
unfolding occurrence_possible_window midnight east_of calendar_granularity
occurrence_possible_window_ordered_example =
    occurrence_possible_window_ordered zones on_day_10 (day 10, day 11) tt refl

-- Just past midnight on the wall an hour west of UTC is later than just past midnight in UTC.
abbrev western : DateTime
western = record { wall = 10 * day_us + 1; east = 82_800_000_000 }

abbrev utc_midnight_past : DateTime
utc_midnight_past = record { wall = 10 * day_us + 2; east = day_us }

abbrev at_instant : DateTime → TemporalKnowledge
at_instant d = record on_day_10 {
  calendar = some record {
    original_text = 7;
    instant = some d;
    date = none;
    period_start = none;
    period_end = none;
    timezone = none;
    recurrence = none;
    precision = TimePrecision.minute;
    resolution_rule = none;
  };
}

sort_key-wall_order_example :
    key_lt (sort_key zones (at_instant western)) (sort_key zones (at_instant utc_midnight_past))
    ≡ true
unfolding temporal_instant calendar_instant utc
sort_key-wall_order_example =
    sort_key-wall_order zones (at_instant western) (at_instant utc_midnight_past) western
      utc_midnight_past refl refl (omega arith) (omega arith) (omega arith) (omega arith)
