-- ===== src/States.antt =====
-- `State` (pke/src/pke/domain/states.py) and the choice of the current state of a dimension
-- (pke/src/pke/query/state_resolver.py). Of the record, the fields that the resolver and its callers
-- read here are kept.
pub mod Times
pub mod Current
pub mod Dimensions
mod Examples
use jamesbrain.Common.{
  ℕ, Text, Bool, true, false, List, [], ◌∷◌, Option, none, some, if◌then◌else◌, ◌==◌, length,
  filter,
}
use jamesbrain.Temporal.Instant.{ZoneData}
use jamesbrain.Temporal.Knowledge.{TemporalKnowledge}
use jamesbrain.Temporal.Membership.{sort_key}
use jamesbrain.Ranking.{key_eq, ranked, unranked}

pub record State : Type 0 where
  pub id : Text
  pub user_id : Text
  pub entity_id : Text
  pub dimension_key : Text
  pub value_key : Text
  pub temporal : TemporalKnowledge
  pub is_current : Bool

-- `TemporalCompleteness` of pke/src/pke/query/results.py.
pub data TemporalCompleteness : Type 0 where
  complete partial indeterminate : TemporalCompleteness

pub record CurrentStateResult : Type 0 where
  pub state : Option State
  pub completeness : TemporalCompleteness
  pub indeterminate_count : ℕ

unfoldable pub state_key : ZoneData → State → ℕ × Text
state_key zd s = sort_key zd s.temporal

unfoldable pub pool_of : List State → Text → Bool → List State
pool_of states dimension only_current =
    let pool = filter (λ s. s.dimension_key == dimension) states in
    if only_current then filter (λ s. s.is_current) pool else pool

-- The answer, from the ranked states and those of an unknown time.
unfoldable pub choose : ZoneData → List State → List State → CurrentStateResult
choose zd [] [] = record {
  state = none;
  completeness = TemporalCompleteness.complete;
  indeterminate_count = 0;
}
choose zd [] (u ∷ []) = record {
  state = some u;
  completeness = TemporalCompleteness.partial;
  indeterminate_count = 0;
}
choose zd [] (u ∷ v ∷ us) = record {
  state = none;
  completeness = TemporalCompleteness.indeterminate;
  indeterminate_count = length (u ∷ v ∷ us);
}
choose zd (c ∷ rest) (u ∷ us) = record {
  state = some c;
  completeness = TemporalCompleteness.partial;
  indeterminate_count = length (u ∷ us);
}
choose zd (c ∷ []) [] = record {
  state = some c;
  completeness = TemporalCompleteness.complete;
  indeterminate_count = 0;
}
choose zd (c ∷ d ∷ rest) [] =
    if key_eq (state_key zd c) (state_key zd d)
    then record {
      state = some c;
      completeness = TemporalCompleteness.indeterminate;
      indeterminate_count = 1;
    }
    else record {
      state = some c;
      completeness = TemporalCompleteness.complete;
      indeterminate_count = 0;
    }

unfoldable pub resolve_current : ZoneData → List State → Text → Bool → CurrentStateResult
unfolding choose
resolve_current zd states dimension only_current =
    let pool = pool_of states dimension only_current in
    choose zd (ranked (state_key zd) (λ s. s.id) pool) (unranked (state_key zd) (λ s. s.id) pool)
