-- ===== src/Relations/Query.antt =====
-- Queries over relations (pke/src/pke/query/relation_resolver.py). The table of learned relation
-- metadata, a module variable of the source, is an argument.
pub mod Current
pub mod Held
use jamesbrain.Common.{
  ℕ, Text, Bool, true, false, not, ◌&&◌, ◌||◌, List, [], ◌∷◌, ◌++◌, map, Option, none, some,
  if◌then◌else◌, ◌==◌, length, filter, or_else,
}
use jamesbrain.Temporal.Instant.{DateTime, ZoneData}
use jamesbrain.Temporal.Membership.{
  TemporalMembership, TimeRange, validity_interval_membership, sort_key,
}
use jamesbrain.Ranking.{key_eq, ranked, unranked}
use jamesbrain.States.{TemporalCompleteness}
use jamesbrain.Relations.{
  Relation, termination_known, relation_calendar_endpoint, relation_calendar_start,
  termination_calendar_known,
}
use jamesbrain.Relations.Metadata.{Table, is_order_insensitive}

pub data RelationScope : Type 0 where
  current historical any : RelationScope

pub record RelationMatch : Type 0 where
  pub relation : Relation
  pub completeness : TemporalCompleteness

-- The literals "yes", "no" and "unknown".
pub data Answer : Type 0 where
  yes_answer no_answer unknown_answer : Answer

pub record RelationQueryAnswer : Type 0 where
  pub matches : List RelationMatch
  pub answer : Option Answer
  pub completeness : TemporalCompleteness
  pub indeterminate_count : ℕ

-- The arguments that the queries share: who, whom and which concepts; no concepts means any.
pub record Pattern : Type 0 where
  pub subject_id : Option Text
  pub object_id : Option Text
  pub concept_ids : List Text

abbrev pub in_texts : Text → List Text → Bool
in_texts a [] = false
in_texts a (b ∷ bs) = a == b || in_texts a bs

-- `_endpoint_match`
unfoldable pub endpoint_match : Table → Relation → Text → Bool
endpoint_match learned r e =
    if r.from_id == e || r.to_id == e
    then true
    else if is_order_insensitive learned r.key
    then r.from_id == e || r.to_id == e
    else false

abbrev pub concept_fits : List Text → Text → Bool
concept_fits [] concept = true
concept_fits (c ∷ cs) concept = in_texts concept (c ∷ cs)

abbrev pub scope_fits : RelationScope → Bool → Bool
scope_fits RelationScope.current is_current = is_current
scope_fits RelationScope.historical is_current = not is_current
scope_fits RelationScope.any is_current = true

-- The end asked for is this one or, where order is ignored, the other one.
abbrev pub end_fits : Option Text → Text → Text → Bool → Bool
end_fits none this other unordered = true
end_fits (some e) this other unordered = this == e || (unordered && other == e)

-- `_matches_triple`
unfoldable pub matches_triple : Table → Pattern → RelationScope → Relation → Bool
matches_triple learned p scope r =
    concept_fits p.concept_ids r.concept_id
    && (scope_fits scope r.is_current
        && (end_fits p.subject_id r.from_id r.to_id (is_order_insensitive learned r.key)
            && end_fits p.object_id r.to_id r.from_id (is_order_insensitive learned r.key)))

unfoldable pub filter_relations :
    Table → Pattern → RelationScope → Option Text → List Relation → List Relation
unfolding matches_triple endpoint_match
filter_relations learned p scope endpoint relations =
    filter (matches_triple learned p scope) (elim endpoint [
      | none ↦ relations
      | some e ↦ filter (λ r. endpoint_match learned r e) relations
    ])

unfoldable pub relation_key : ZoneData → Relation → ℕ × Text
relation_key zd r = sort_key zd r.temporal

abbrev pub with_completeness : TemporalCompleteness → Relation → RelationMatch
with_completeness c r = record { relation = r; completeness = c }

-- `_rank_matches`, from the ranked relations and those of an unknown time: the latest, then the
-- unknown ones; the earlier ones are dropped.
unfoldable pub rank_lists : ZoneData → List Relation → List Relation → List RelationMatch
rank_lists zd [] [] = []
rank_lists zd [] (u ∷ []) = with_completeness TemporalCompleteness.partial u ∷ []
rank_lists zd [] (u ∷ v ∷ us) =
    map (with_completeness TemporalCompleteness.indeterminate) (u ∷ v ∷ us)
rank_lists zd (c ∷ rest) (u ∷ us) =
    with_completeness TemporalCompleteness.complete c
    ∷ map (with_completeness TemporalCompleteness.partial) (u ∷ us)
rank_lists zd (c ∷ []) [] = with_completeness TemporalCompleteness.complete c ∷ []
rank_lists zd (c ∷ d ∷ rest) [] =
    with_completeness
      (if key_eq (relation_key zd c) (relation_key zd d)
        then TemporalCompleteness.indeterminate
        else TemporalCompleteness.complete)
      c
    ∷ []

unfoldable pub rank_matches : ZoneData → List Relation → List RelationMatch
unfolding rank_lists
rank_matches zd rs =
    rank_lists zd (ranked (relation_key zd) (λ r. r.id) rs)
      (unranked (relation_key zd) (λ r. r.id) rs)

abbrev pub plain : List RelationMatch → Option Answer → RelationQueryAnswer
plain ms a = record {
  matches = ms;
  answer = a;
  completeness = TemporalCompleteness.complete;
  indeterminate_count = 0;
}

abbrev pub flagged : List RelationMatch → Answer → TemporalCompleteness → ℕ → RelationQueryAnswer
flagged ms a c n = record {
  matches = ms;
  answer = some a;
  completeness = c;
  indeterminate_count = n;
}

-- The last tests, on the ranked matches: `if ranked` answers.
abbrev pub yes_if_any : List RelationMatch → RelationQueryAnswer
yes_if_any [] = plain [] (some Answer.no_answer)
yes_if_any (m ∷ ms) = plain (m ∷ ms) (some Answer.yes_answer)

-- The tests on how many of the matches are current.
abbrev pub by_current : List RelationMatch → List RelationMatch → RelationQueryAnswer
by_current ms [] = yes_if_any ms
by_current ms (c ∷ []) = plain ms (some Answer.yes_answer)
by_current ms (c ∷ d ∷ cs) =
    flagged ms Answer.unknown_answer TemporalCompleteness.indeterminate (length (c ∷ d ∷ cs))

abbrev pub boolean_answer : RelationScope → List RelationMatch → RelationQueryAnswer
boolean_answer RelationScope.current ms = by_current ms (filter (λ m. m.relation.is_current) ms)
boolean_answer RelationScope.historical ms = yes_if_any ms
boolean_answer RelationScope.any ms = yes_if_any ms

abbrev pub boolean_query : ZoneData → RelationScope → List Relation → RelationQueryAnswer
boolean_query zd scope [] = plain [] (some Answer.no_answer)
boolean_query zd scope (r ∷ rs) = boolean_answer scope (rank_matches zd (r ∷ rs))

-- The lookup of historical matches when there is no current one changes no answer: both of its
-- branches answer no.
unfoldable pub resolve_relation_query :
    ZoneData → Table → Pattern → RelationScope → Bool → List Relation → RelationQueryAnswer
resolve_relation_query zd learned p scope boolean_check relations =
    let matches = filter_relations learned p scope none relations in
    if boolean_check then boolean_query zd scope matches else plain (rank_matches zd matches) none

unfoldable pub resolve_historical_existence :
    ZoneData → Table → Pattern → List Relation → RelationQueryAnswer
resolve_historical_existence zd learned p relations =
    elim (filter_relations learned p RelationScope.any none relations) [
      | [] ↦ plain [] (some Answer.no_answer)
      | r ∷ rs ↦ plain (rank_matches zd (r ∷ rs)) (some Answer.yes_answer)
    ]

abbrev ended_answer : ZoneData → List Relation → RelationQueryAnswer
ended_answer zd [] = plain [] (some Answer.no_answer)
ended_answer zd (r ∷ rest) =
    if termination_calendar_known r.termination_temporal
    then plain (rank_matches zd (r ∷ [])) (some Answer.yes_answer)
    else if termination_known r
    then flagged (rank_matches zd (r ∷ [])) Answer.unknown_answer TemporalCompleteness.partial 0
    else flagged [] Answer.unknown_answer TemporalCompleteness.indeterminate 0

unfoldable pub resolve_termination_date :
    ZoneData → Table → Pattern → List Relation → RelationQueryAnswer
resolve_termination_date zd learned p relations = ended_answer zd (
    filter (λ r. termination_known r || not r.is_current)
      (filter_relations learned p RelationScope.any none relations))

-- `if relation.is_current: end = None`, and only then is the interval open.
unfoldable pub relation_held_during : ZoneData → Relation → TimeRange → TemporalMembership
relation_held_during zd r q =
    let start = or_else r.valid_from (relation_calendar_start zd (some r.temporal)) in
    let end : Option DateTime =
      if r.is_current
      then none
      else or_else r.valid_to (relation_calendar_endpoint zd r.termination_temporal) in
    validity_interval_membership start end q r.is_current

abbrev held_answer : List RelationMatch → TemporalMembership → RelationQueryAnswer
held_answer ms TemporalMembership.match = plain ms (some Answer.yes_answer)
held_answer ms TemporalMembership.no_match = plain ms (some Answer.no_answer)
held_answer ms TemporalMembership.unknown =
    flagged ms Answer.unknown_answer TemporalCompleteness.indeterminate 0

unfoldable pub resolve_held_during :
    ZoneData → Table → Pattern → TimeRange → List Relation → RelationQueryAnswer
resolve_held_during zd learned p q relations =
    elim (filter_relations learned p RelationScope.any none relations) [
      | [] ↦ plain [] (some Answer.no_answer)
      | r ∷ rs ↦ held_answer (rank_matches zd (r ∷ [])) (relation_held_during zd r q)
    ]
