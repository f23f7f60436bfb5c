-- ===== src/Temporal/Knowledge/Resolution.antt =====
-- What the constructors of pke/src/pke/domain/temporal_knowledge.py build: calendar resolution,
-- persistability and the precision stored for it.
use jamesbrain.Common.{
  ◌≡◌, ◌⊎◌, refl, inl, inr, true, Option, none, some, Text, arith, Option-cases,
}
use jamesbrain.Temporal.Value.{TimePrecision, TimeValue}
use jamesbrain.Temporal.Knowledge.{
  TemporalKind, TemporalUnknownReason, TemporalSourceKind, TemporalKnowledge,
  granularity_from_time_precision, calendar_granularity, legacy_time_precision, is_persistable,
  from_calendar,
}
use jamesbrain.Temporal.Knowledge.Constructors.{partial_past, partial_future, partial_ongoing}

-- A value built from a calendar, with no granularity given, has the resolution that the calendar's
-- precision stands for, and none when that precision is no pure resolution.
pub calendar_granularity-from_calendar :
    (c : TimeValue) (k : TemporalKind) (s : TemporalSourceKind) {t : TemporalKnowledge}
    → from_calendar c k s none ≡ some t
    → calendar_granularity t ≡ granularity_from_time_precision c.precision
unfolding from_calendar calendar_granularity
calendar_granularity-from_calendar c k s h = ground arith

-- The precision PARTIAL is stored only for a value with no calendar and no resolution, or whose
-- calendar value has the precision PARTIAL itself.
pub legacy_time_precision-partial :
    (t : TemporalKnowledge)
    → legacy_time_precision t ≡ TimePrecision.partial
    → ((t.calendar ≡ none) × (calendar_granularity t ≡ none))
      ⊎ ((c : TimeValue) × (t.calendar ≡ some c) × (c.precision ≡ TimePrecision.partial))
unfolding legacy_time_precision
legacy_time_precision-partial t h = elim (Option-cases t.calendar) [
  | inl e ↦ inl (e, ground arith)
  | inr (c, e) ↦ inr (c, e, ground arith)
]

-- Every value that the constructors for partial times build passes the validator and can be stored.
pub partial_constructors-persistable :
    (text : Text) (r : TemporalUnknownReason) (e : Option Text) (s : TemporalSourceKind)
    → ((t : TemporalKnowledge) × (partial_past text r e s ≡ some t) × (is_persistable t ≡ true))
      × ((t : TemporalKnowledge) × (partial_future text r e ≡ some t) × (is_persistable t ≡ true))
      × ((t : TemporalKnowledge) × (partial_ongoing text e ≡ some t) × (is_persistable t ≡ true))
unfolding partial_past partial_future partial_ongoing is_persistable
partial_constructors-persistable text r e s = ((_, refl, refl), (_, refl, refl), (_, refl, refl))
