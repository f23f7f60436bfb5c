-- ===== src/States/Dimensions.antt =====
-- The current states of every dimension at once (pke/src/pke/query/state_resolver.py). A `dict` with
-- the dimensions in another order than the sorted one of the source.
use jamesbrain.Common.{
  Text, Bool, true, false, List, [], ◌∷◌, Option, none, some, ◌≡◌, ◌∙◌, refl, inl, inr,
  if◌then◌else◌, ◌||◌, ◌==◌, ==_iff, Bool-cases, filter,
}
use jamesbrain.Ontology.Dict.{get, set, get-set_self, get-set_other}
use jamesbrain.Temporal.Instant.{ZoneData}
use jamesbrain.States.{State, CurrentStateResult, resolve_current}

abbrev pub of_entity : List State → Option Text → List State
of_entity states none = states
of_entity states (some entity) = filter (λ s. s.entity_id == entity) states

-- The entries for the dimensions of the states, each from the whole pool.
unfoldable pub resolve_dimensions :
    ZoneData → List State → List State → List (Text × CurrentStateResult)
unfolding set
resolve_dimensions zd pool [] = []
resolve_dimensions zd pool (s ∷ ss) =
    set ◌==◌ s.dimension_key (resolve_current zd pool s.dimension_key true)
      (resolve_dimensions zd pool ss)

unfoldable pub resolve_current_by_dimension :
    ZoneData → List State → Option Text → List (Text × CurrentStateResult)
unfolding resolve_dimensions
resolve_current_by_dimension zd states entity =
    resolve_dimensions zd (of_entity states entity) (of_entity states entity)

abbrev pub has_dimension : Text → List State → Bool
has_dimension dimension [] = false
has_dimension dimension (s ∷ ss) = s.dimension_key == dimension || has_dimension dimension ss

resolve_dimensions-get :
    (zd : ZoneData) (pool ss : List State) (dimension : Text)
    → get ◌==◌ dimension (resolve_dimensions zd pool ss)
      ≡ (if has_dimension dimension ss then some (resolve_current zd pool dimension true) else none)
unfolding resolve_dimensions get
resolve_dimensions-get zd pool [] dimension = refl
resolve_dimensions-get zd pool (s ∷ ss) dimension =
    elim (Bool-cases (s.dimension_key == dimension)) [
      | inl e ↦
          let same : s.dimension_key ≡ dimension = (==_iff s.dimension_key dimension).0 e in
          rw e (
            rw same (
              get-set_self ◌==◌ ==_iff dimension (resolve_current zd pool dimension true)
                (resolve_dimensions zd pool ss)))
      | inr n ↦ rw n (
          get-set_other ◌==◌ ==_iff dimension s.dimension_key
            (resolve_current zd pool s.dimension_key true) (resolve_dimensions zd pool ss) n
          ∙ resolve_dimensions-get zd pool ss dimension)
    ]

-- The entry of a dimension is what `resolve_current` answers on it for the states of the entity, and
-- there is one exactly when they have such a state.
pub resolve_current_by_dimension-get :
    (zd : ZoneData) (states : List State) (entity : Option Text) (dimension : Text)
    → get ◌==◌ dimension (resolve_current_by_dimension zd states entity) ≡ (
        if has_dimension dimension (of_entity states entity)
        then some (resolve_current zd (of_entity states entity) dimension true)
        else none)
unfolding resolve_current_by_dimension
resolve_current_by_dimension-get zd states entity dimension =
    resolve_dimensions-get zd (of_entity states entity) (of_entity states entity) dimension
