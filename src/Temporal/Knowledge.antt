-- ===== src/Temporal/Knowledge.antt =====
-- `TemporalKnowledge`, its constructors and its readings of calendar resolution, after
-- pke/src/pke/domain/temporal_knowledge.py.
pub mod Constructors
pub mod Resolution
use text.Mathlib.Text.{starts_with}
use jamesbrain.Common.{
  ℕ, Bool, true, false, not, ◌&&◌, ◌||◌, Option, none, some, Text, String, if◌then◌else◌, is_some,
}
use jamesbrain.Temporal.Value.{TimePrecision, TimeValue}

pub data TemporalKind : Type 0 where
  exact relative interval partial habitual unknown : TemporalKind

pub data RelationToReference : Type 0 where
  before after during habitual unspecified : RelationToReference

pub data OccurrenceStatus : Type 0 where
  happened ongoing planned habitual unspecified : OccurrenceStatus

pub data TemporalUnknownReason : Type 0 where
  not_provided forgotten unresolved unknown : TemporalUnknownReason

pub data TemporalGranularity : Type 0 where
  instant day week month year interval recurring unspecified : TemporalGranularity

pub data TemporalSourceKind : Type 0 where
  explicit_expression grammatical_evidence user_uncertainty inferred resolved : TemporalSourceKind

pub record TemporalKnowledge : Type 0 where
  pub kind : TemporalKind
  pub original_text : Text
  pub calendar : Option TimeValue
  pub relation_to_reference : Option RelationToReference
  pub occurrence_status : Option OccurrenceStatus
  pub unknown_reason : Option TemporalUnknownReason
  pub interval_start : Option ℕ
  pub interval_end : Option ℕ
  pub granularity : TemporalGranularity
  pub tense_evidence : Option Text
  pub source_kind : Option TemporalSourceKind

-- `granularity.value in _CALENDAR_RESOLUTION`
abbrev pub is_resolution : TemporalGranularity → Bool
is_resolution TemporalGranularity.instant = true
is_resolution TemporalGranularity.day = true
is_resolution TemporalGranularity.week = true
is_resolution TemporalGranularity.month = true
is_resolution TemporalGranularity.year = true
is_resolution _ = false

unfoldable pub granularity_from_time_precision : TimePrecision → Option TemporalGranularity
granularity_from_time_precision TimePrecision.minute = some TemporalGranularity.instant
granularity_from_time_precision TimePrecision.day = some TemporalGranularity.day
granularity_from_time_precision _ = none

abbrev pub is_partial_kind : TemporalKind → Bool
is_partial_kind TemporalKind.partial = true
is_partial_kind _ = false

abbrev pub is_interval_kind : TemporalKind → Bool
is_interval_kind TemporalKind.interval = true
is_interval_kind _ = false

abbrev pub is_exact_kind : TemporalKind → Bool
is_exact_kind TemporalKind.exact = true
is_exact_kind _ = false

abbrev pub is_habitual_kind : TemporalKind → Bool
is_habitual_kind TemporalKind.habitual = true
is_habitual_kind _ = false

-- `relation is None or relation is UNSPECIFIED`
abbrev pub lacks_relation : Option RelationToReference → Bool
lacks_relation none = true
lacks_relation (some RelationToReference.unspecified) = true
lacks_relation (some _) = false

-- The validator `_partial_requires_relation`; `none` is its `ValueError`.
unfoldable pub validate : TemporalKnowledge → Option TemporalKnowledge
validate t =
    if is_partial_kind t.kind && lacks_relation t.relation_to_reference then none else some t

unfoldable pub calendar_granularity_of :
    TemporalGranularity → Option TimeValue → Option TemporalGranularity
unfolding granularity_from_time_precision
calendar_granularity_of g none = if is_resolution g then some g else none
calendar_granularity_of g (some c) =
    if is_resolution g then some g else granularity_from_time_precision c.precision

unfoldable pub calendar_granularity : TemporalKnowledge → Option TemporalGranularity
unfolding calendar_granularity_of
calendar_granularity t = calendar_granularity_of t.granularity t.calendar

-- The precision stored where there is no calendar value.
unfoldable pub precision_of_granularity : Option TemporalGranularity → TimePrecision
precision_of_granularity (some TemporalGranularity.instant) = TimePrecision.minute
precision_of_granularity (some TemporalGranularity.day) = TimePrecision.day
precision_of_granularity (some TemporalGranularity.month) = TimePrecision.period
precision_of_granularity (some TemporalGranularity.year) = TimePrecision.period
precision_of_granularity (some TemporalGranularity.week) = TimePrecision.period
precision_of_granularity _ = TimePrecision.partial

unfoldable pub legacy_time_precision : TemporalKnowledge → TimePrecision
unfolding precision_of_granularity calendar_granularity
legacy_time_precision t = elim t.calendar [
  | some c ↦ c.precision
  | none ↦ precision_of_granularity (calendar_granularity t)
]

unfoldable pub anchors : Option TimeValue → Bool
anchors none = false
anchors (some c) =
    is_some c.instant || (is_some c.date || (is_some c.period_start || is_some c.recurrence))

unfoldable pub has_calendar_anchor : TemporalKnowledge → Bool
unfolding anchors
has_calendar_anchor t = anchors t.calendar

abbrev pub is_unspecified : Option RelationToReference → Bool
is_unspecified (some RelationToReference.unspecified) = true
is_unspecified _ = false

unfoldable pub is_persistable : TemporalKnowledge → Bool
unfolding has_calendar_anchor
is_persistable t =
    if has_calendar_anchor t
    then true
    else if is_partial_kind t.kind
    then not (is_unspecified t.relation_to_reference)
    else is_interval_kind t.kind && (is_some t.interval_start && is_some t.interval_end)

-- `calendar.resolution_rule and calendar.resolution_rule.startswith("relative.")`
unfoldable pub is_relative_rule : Option String → Bool
is_relative_rule none = false
is_relative_rule (some rule) = starts_with rule "relative."

-- The kind that `from_calendar` gives, by its three tests in order.
unfoldable pub resolved_kind : TemporalKind → TimeValue → TemporalKind
unfolding is_relative_rule
resolved_kind kind c =
    let k1 = if is_some c.recurrence && is_exact_kind kind then TemporalKind.habitual else kind in
    let k2 = if is_some c.period_start && is_some c.period_end then TemporalKind.interval else k1 in
    if is_relative_rule c.resolution_rule && is_exact_kind k2 then TemporalKind.relative else k2

abbrev pub granularity_or_unspecified : Option TemporalGranularity → TemporalGranularity
granularity_or_unspecified none = TemporalGranularity.unspecified
granularity_or_unspecified (some g) = g

unfoldable pub from_calendar :
    TimeValue
    → TemporalKind
    → TemporalSourceKind
    → Option TemporalGranularity
    → Option TemporalKnowledge
unfolding resolved_kind granularity_from_time_precision validate
from_calendar c kind source given = validate (record {
  kind = resolved_kind kind c;
  original_text = c.original_text;
  calendar = some c;
  relation_to_reference = none;
  occurrence_status = none;
  unknown_reason = none;
  interval_start = none;
  interval_end = none;
  granularity = elim given [
    | some g ↦ g
    | none ↦ granularity_or_unspecified (granularity_from_time_precision c.precision)
  ];
  tense_evidence = none;
  source_kind = some source;
})
