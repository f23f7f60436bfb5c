-- ===== src/States/Examples.antt =====
-- The choice of the current state among two states of one dimension, on days 10 and 11.
use jamesbrain.Common.{ℕ, ◌*◌, Memᴰ, ◌⊎◌, true, ◌≡◌, refl, List, [], ◌∷◌, none, some, arith}
use jamesbrain.Temporal.Instant.{ZoneData, day_us}
use jamesbrain.Temporal.Value.{TimePrecision}
use jamesbrain.Temporal.Knowledge.{
  TemporalKind, TemporalGranularity, TemporalKnowledge, TemporalSourceKind,
}
use jamesbrain.Temporal.Instant.{iso_text}
use jamesbrain.Temporal.Membership.{sort_key}
use jamesbrain.Ranking.{ranked, unranked, ranks_le}
use jamesbrain.States.{state_key, State, TemporalCompleteness, resolve_current, pool_of}
use jamesbrain.States.Times.{IsBefore, time_of}
use jamesbrain.States.Current.{resolve_current-latest}

abbrev zones : ZoneData
zones = record { east_at = λ name wall. day_us; midnights_ordered = λ name d. omega arith }

abbrev at_day : ℕ → TemporalKnowledge
at_day d = record {
  kind = TemporalKind.exact;
  original_text = 5;
  calendar = some (record {
    original_text = 5;
    instant = some (record { wall = d * day_us; east = day_us });
    date = none;
    period_start = none;
    period_end = none;
    timezone = none;
    recurrence = none;
    precision = TimePrecision.minute;
    resolution_rule = none;
  });
  relation_to_reference = none;
  occurrence_status = none;
  unknown_reason = none;
  interval_start = none;
  interval_end = none;
  granularity = TemporalGranularity.instant;
  tense_evidence = none;
  source_kind = some TemporalSourceKind.resolved;
}

abbrev state_on : ℕ → State
state_on d = record {
  id = d;
  user_id = 7;
  entity_id = 3;
  dimension_key = 20;
  value_key = d;
  temporal = at_day d;
  is_current = true;
}

abbrev states : List State
states = state_on 10 ∷ state_on 11 ∷ []

-- The later one is chosen, and the answer is complete.
chosen : (resolve_current zones states 20 true).state ≡ some (state_on 11)
unfolding resolve_current ranked pool_of state_key sort_key ranks_le iso_text unranked
chosen = refl

complete : (resolve_current zones states 20 true).completeness ≡ TemporalCompleteness.complete
unfolding resolve_current ranked pool_of state_key sort_key ranks_le iso_text unranked
complete = refl

in_pool : Memᴰ (state_on 10) (pool_of states 20 true)
unfolding pool_of
in_pool = Memᴰ.head refl

resolve_current-latest_example :
    (state_on 10 ≡ state_on 11) ⊎ IsBefore (time_of zones (at_day 10)) (time_of zones (at_day 11))
resolve_current-latest_example =
    resolve_current-latest zones states 20 true (state_on 11) chosen complete (state_on 10) in_pool
