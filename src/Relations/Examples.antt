-- ===== src/Relations/Examples.antt =====
-- The theorems on relations at concrete ones: a marriage and an employment, started on day 9.
use jamesbrain.Common.{ℕ, ◌*◌, ◌≤◌, true, ◌≡◌, ◌↔◌, refl, [], ◌∷◌, none, some, Memᴰ, arith}
use jamesbrain.Temporal.Instant.{DateTime, ZoneData, day_us, utc}
use jamesbrain.Temporal.Knowledge.{TemporalKind, TemporalGranularity, TemporalKnowledge}
use jamesbrain.Temporal.Membership.{TemporalMembership, TimeRange, sort_key}
use jamesbrain.Ranking.{ranked, unranked}
use jamesbrain.States.{TemporalCompleteness}
use jamesbrain.Relations.{Relation, RelationTerminationEvidence, Key}
use jamesbrain.Relations.Metadata.{
  codes, is_order_insensitive, stored_relation_query, canonicalize_relation_assertion,
}
use jamesbrain.Relations.Metadata.Canonical.{canonicalize_idem}
use jamesbrain.Relations.Query.{
  RelationScope, RelationMatch, Pattern, filter_relations, relation_held_during, rank_matches,
  relation_key, resolve_relation_query,
}
use jamesbrain.Relations.Query.Current.{resolve_relation_query-mem, IsAsked}
use jamesbrain.Relations.Query.Held.{start_of, held_during-current}

abbrev day : ℕ → DateTime
day d = record { wall = d * day_us; east = day_us }

abbrev zones : ZoneData
zones = record { east_at = λ name wall. day_us; midnights_ordered = λ name d. omega arith }

abbrev no_time : TemporalKnowledge
no_time = record {
  kind = TemporalKind.unknown;
  original_text = 0;
  calendar = none;
  relation_to_reference = none;
  occurrence_status = none;
  unknown_reason = none;
  interval_start = none;
  interval_end = none;
  granularity = TemporalGranularity.unspecified;
  tense_evidence = none;
  source_kind = none;
}

abbrev married : Key
married = codes "relation.married_to"

-- Of 3 to 4, valid from day 9 on.
abbrev relation_of : Key → Relation
relation_of key = record {
  id = 1;
  user_id = 7;
  from_id = 3;
  to_id = 4;
  concept_id = 12;
  key = key;
  temporal = no_time;
  observed_at = day 9;
  valid_from = some (day 9);
  valid_to = none;
  is_current = true;
  supersedes_id = none;
  caused_by_event_id = none;
  raw_input_id = none;
  termination_temporal = none;
  termination_observed_at = none;
  termination_raw_input_id = none;
}

abbrev marriage : Relation
marriage = relation_of married

abbrev whom_4 : Pattern
whom_4 = record { subject_id = none; object_id = some 4; concept_ids = 12 ∷ [] }

abbrev days_10_11 : TimeRange
days_10_11 = record { start = day 10; end = day 12 }

abbrev divorce : RelationTerminationEvidence
divorce = record {
  temporal = no_time;
  observed_at = day 20;
  raw_input_id = 2;
  caused_by_event_id = none;
}

inverse_found :
    stored_relation_query [] (codes "relation.employs") ≡ (codes "relation.employed_by", true)
unfolding stored_relation_query
inverse_found = refl

unordered : is_order_insensitive [] (stored_relation_query [] married).0 ≡ true
unfolding is_order_insensitive stored_relation_query
unordered = refl

canonicalize_idem_example :
    let c = canonicalize_relation_assertion [] 4 3 (codes "owned_by") in
    canonicalize_relation_assertion [] c.0 c.1 c.2 ≡ c
canonicalize_idem_example = canonicalize_idem [] 4 3 (codes "owned_by")

unordered_key : is_order_insensitive [] married ≡ true
unfolding is_order_insensitive
unordered_key = refl

abbrev answer_match : RelationMatch
answer_match = record { relation = marriage; completeness = TemporalCompleteness.partial }

matched :
    Memᴰ answer_match
      (resolve_relation_query zones [] whom_4 RelationScope.current true (marriage ∷ [])).matches
unfolding resolve_relation_query filter_relations rank_matches ranked relation_key sort_key unranked
matched = Memᴰ.head refl

resolve_relation_query-mem_example :
    Memᴰ marriage (marriage ∷ []) × IsAsked [] whom_4 RelationScope.current marriage
resolve_relation_query-mem_example =
    resolve_relation_query-mem zones [] whom_4 RelationScope.current (marriage ∷ []) true
      answer_match matched

held_during-current_example :
    ((relation_held_during zones marriage days_10_11 ≡ TemporalMembership.match)
      ↔ ((s : DateTime) × (start_of zones marriage ≡ some s) × (utc s ≤ utc (day 10))))
    × ((relation_held_during zones marriage days_10_11 ≡ TemporalMembership.no_match)
        ↔ ((s : DateTime) × (start_of zones marriage ≡ some s) × (utc (day 12) ≤ utc s)))
unfolding utc
held_during-current_example = held_during-current zones marriage days_10_11 refl (omega arith)
