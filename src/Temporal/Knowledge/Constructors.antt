-- ===== src/Temporal/Knowledge/Constructors.antt =====
-- The class methods that build a `TemporalKnowledge` with no calendar value
-- (pke/src/pke/domain/temporal_knowledge.py).
use jamesbrain.Common.{ℕ, Option, none, some, Text, if◌then◌else◌}
use jamesbrain.Temporal.Knowledge.{
  TemporalKind, RelationToReference, OccurrenceStatus, TemporalUnknownReason, TemporalGranularity,
  TemporalSourceKind, TemporalKnowledge, is_resolution, validate,
}

unfoldable pub partial_past :
    Text → TemporalUnknownReason → Option Text → TemporalSourceKind → Option TemporalKnowledge
unfolding validate
partial_past text reason tense source = validate (record {
  kind = TemporalKind.partial;
  original_text = text;
  calendar = none;
  relation_to_reference = some RelationToReference.before;
  occurrence_status = some OccurrenceStatus.happened;
  unknown_reason = some reason;
  interval_start = none;
  interval_end = none;
  granularity = TemporalGranularity.unspecified;
  tense_evidence = tense;
  source_kind = some source;
})

unfoldable pub partial_future :
    Text → TemporalUnknownReason → Option Text → Option TemporalKnowledge
unfolding validate
partial_future text reason tense = validate (record {
  kind = TemporalKind.partial;
  original_text = text;
  calendar = none;
  relation_to_reference = some RelationToReference.after;
  occurrence_status = some OccurrenceStatus.planned;
  unknown_reason = some reason;
  interval_start = none;
  interval_end = none;
  granularity = TemporalGranularity.unspecified;
  tense_evidence = tense;
  source_kind = some TemporalSourceKind.grammatical_evidence;
})

unfoldable pub partial_ongoing : Text → Option Text → Option TemporalKnowledge
unfolding validate
partial_ongoing text tense = validate (record {
  kind = TemporalKind.partial;
  original_text = text;
  calendar = none;
  relation_to_reference = some RelationToReference.during;
  occurrence_status = some OccurrenceStatus.ongoing;
  unknown_reason = some TemporalUnknownReason.not_provided;
  interval_start = none;
  interval_end = none;
  granularity = TemporalGranularity.unspecified;
  tense_evidence = tense;
  source_kind = some TemporalSourceKind.grammatical_evidence;
})

-- `none` is the `ValueError` of a granularity that is no calendar resolution.
unfoldable pub calendar_occurrence :
    Text
    → ℕ
    → ℕ
    → TemporalGranularity
    → RelationToReference
    → OccurrenceStatus
    → Option TemporalKnowledge
unfolding validate
calendar_occurrence text start end granularity relation status =
    if is_resolution granularity
    then validate (record {
      kind = TemporalKind.interval;
      original_text = text;
      calendar = none;
      relation_to_reference = some relation;
      occurrence_status = some status;
      unknown_reason = none;
      interval_start = some start;
      interval_end = some end;
      granularity = granularity;
      tense_evidence = none;
      source_kind = some TemporalSourceKind.explicit_expression;
    })
    else none

unfoldable pub unknown : Text → TemporalUnknownReason → Option Text → Option TemporalKnowledge
unfolding validate
unknown text reason tense = validate (record {
  kind = TemporalKind.unknown;
  original_text = text;
  calendar = none;
  relation_to_reference = none;
  occurrence_status = none;
  unknown_reason = some reason;
  interval_start = none;
  interval_end = none;
  granularity = TemporalGranularity.unspecified;
  tense_evidence = tense;
  source_kind = some TemporalSourceKind.user_uncertainty;
})
