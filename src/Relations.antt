-- ===== src/Relations.antt =====
-- `Relation` and its life (pke/src/pke/domain/relations.py, pke/src/pke/domain/relation_lifecycle.py):
-- the endpoints that its times give, and its termination. Of the record, the sources and
-- confidences are left out; an evidence's `observed_at` is aware, as its type says.
pub mod Metadata
pub mod Query
mod Examples
use jamesbrain.Common.{
  ℕ, Text, Bool, true, false, ◌&&◌, ◌||◌, List, Option, none, some, if◌then◌else◌, is_some, or_else,
}
use jamesbrain.Temporal.Instant.{DateTime, Zone, ZoneData, midnight}
use jamesbrain.Temporal.Value.{TimePrecision, TimeValue, is_day, is_minute}
use jamesbrain.Temporal.Knowledge.{
  TemporalGranularity, TemporalKnowledge, has_calendar_anchor, is_interval_kind,
}

-- A concept key, as the codes of its characters.
abbrev pub Key : Type 0
Key = List ℕ

pub record Relation : Type 0 where
  pub id : Text
  pub user_id : Text
  pub from_id : Text
  pub to_id : Text
  pub concept_id : Text
  pub key : Key
  pub temporal : TemporalKnowledge
  pub observed_at : DateTime
  pub valid_from : Option DateTime
  pub valid_to : Option DateTime
  pub is_current : Bool
  pub supersedes_id : Option Text
  pub caused_by_event_id : Option Text
  pub raw_input_id : Option Text
  pub termination_temporal : Option TemporalKnowledge
  pub termination_observed_at : Option DateTime
  pub termination_raw_input_id : Option Text

pub record RelationTerminationEvidence : Type 0 where
  pub temporal : TemporalKnowledge
  pub observed_at : DateTime
  pub raw_input_id : Text
  pub caused_by_event_id : Option Text

unfoldable pub termination_known : Relation → Bool
termination_known r = is_some r.termination_observed_at

-- `datetime.combine(date, time.min, tzinfo=UTC)`
abbrev utc_midnight : ZoneData → ℕ → DateTime
utc_midnight zd d = midnight zd Zone.utc_zone d

-- The point that an anchored calendar value gives, else what the interval's date gives.
unfoldable pub point_or : ZoneData → Bool → Option TimeValue → Option ℕ → Option DateTime
point_or zd anchored none date = elim date [ some d ↦ some (utc_midnight zd d) | none ↦ none ]
point_or zd anchored (some c) date =
    let rest : Option DateTime = elim date [ some d ↦ some (utc_midnight zd d) | none ↦ none ] in
    if anchored
    then elim c.instant [
      | some i ↦ some i
      | none ↦ elim c.date [ some d ↦ some (utc_midnight zd d) | none ↦ rest ]
    ]
    else rest

unfoldable pub relation_calendar_endpoint : ZoneData → Option TemporalKnowledge → Option DateTime
unfolding point_or
relation_calendar_endpoint zd none = none
relation_calendar_endpoint zd (some t) =
    point_or zd (has_calendar_anchor t) t.calendar t.interval_end

unfoldable pub relation_calendar_start : ZoneData → Option TemporalKnowledge → Option DateTime
unfolding point_or
relation_calendar_start zd none = none
relation_calendar_start zd (some t) =
    point_or zd (has_calendar_anchor t) t.calendar t.interval_start

abbrev is_unspecified_granularity : TemporalGranularity → Bool
is_unspecified_granularity TemporalGranularity.unspecified = true
is_unspecified_granularity _ = false

abbrev has_plain_precision : Option TimeValue → Bool
has_plain_precision none = false
has_plain_precision (some c) = is_day c.precision || is_minute c.precision

unfoldable pub termination_calendar_known : Option TemporalKnowledge → Bool
termination_calendar_known none = false
termination_calendar_known (some t) =
    if has_calendar_anchor t
    then true
    else if is_interval_kind t.kind && (is_some t.interval_start && is_some t.interval_end)
    then true
    else if (if is_unspecified_granularity t.granularity then false else is_some t.interval_start)
    then true
    else has_plain_precision t.calendar

-- `first or second`, of optional texts
abbrev filled_or : Option Text → Option Text → Option Text
filled_or none d = d
filled_or (some Prim.Native.Nat.zero) d = d
filled_or (some (Prim.Native.Nat.suc n)) d = some (Prim.Native.Nat.suc n)

unfoldable pub apply_termination : ZoneData → Relation → RelationTerminationEvidence → Relation
apply_termination zd r e = record r {
  termination_temporal = some e.temporal;
  termination_observed_at = some e.observed_at;
  termination_raw_input_id = some e.raw_input_id;
  valid_to = relation_calendar_endpoint zd (some e.temporal);
  is_current = false;
  caused_by_event_id = filled_or e.caused_by_event_id r.caused_by_event_id;
}
