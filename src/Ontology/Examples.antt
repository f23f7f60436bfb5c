-- ===== src/Ontology/Examples.antt =====
-- Runs of the registry of concepts (pke/src/pke/ontology/registry.py).
use jamesbrain.Common.{
  ℕ, Text, true, ◌≡◌, ◌≢◌, ◌↔◌, ◌⊎◌, refl, Option, none, some, List, [], ◌∷◌, ◌<◌,
}
use jamesbrain.Ontology.Dict.{get, set}
use jamesbrain.Ontology.Concept.{ConceptScope, ConceptStatus, ConceptKind, OntologyConcept}
use jamesbrain.Ontology.Registry.{
  returned, raised, OntologyRegistry, empty_registry, get_by_id, get_global, get_personal,
  get_by_key, register, register_in, put_personal, put_for, put_owned, put_extended,
  put_extended_at, index_global, put_core, put_core_at, and_then, load_core_seeds, core_mutation,
}
use jamesbrain.Ontology.Registry.Ancestry.{
  resolve_token, found_or_raise, is_descendant_of, descendant_ids, collect, concepts, of_both,
  descends, climb, climb_by, climb_to, is_in, max_ancestry,
}
use jamesbrain.Ontology.Registry.Ancestry.Reaches.{Reaches, is_descendant_of_iff}
use jamesbrain.Ontology.Registry.Keeps.{register-by_id}
use jamesbrain.Ontology.Registry.Visible.{register-again, register-isolated}
use jamesbrain.Ontology.Registry.Indexed.{IsIndexed, register-IsIndexed, empty_registry-IsIndexed}

abbrev concept : Text → Text → ConceptScope → Option Text → Option Text → OntologyConcept
concept i k s parent owner = record {
  id = i;
  key = k;
  kind = ConceptKind.entity_type;
  scope = s;
  status = ConceptStatus.active;
  parent_id = parent;
  owner_user_id = owner;
  created_at = record { wall = 0; east = 0 };
  presentation = none;
}

-- A vehicle, an automobile, a kind of automobile that is of everyone, and one of the user 7.
abbrev vehicle : OntologyConcept
vehicle = concept 10 1 ConceptScope.core none none

abbrev automobile : OntologyConcept
automobile = concept 20 2 ConceptScope.core (some 10) none

abbrev taxi : OntologyConcept
taxi = concept 30 3 ConceptScope.extended (some 20) none

abbrev my_taxi : OntologyConcept
my_taxi = concept 20 4 ConceptScope.personal (some 10) (some 7)

abbrev seeds : List OntologyConcept
seeds = vehicle ∷ automobile ∷ []

abbrev core_registry : OntologyRegistry
core_registry = record {
  by_id = (10, vehicle) ∷ (20, automobile) ∷ [];
  global_by_key = (1, vehicle) ∷ (2, automobile) ∷ [];
  personal = [];
  core_frozen = true;
}

seeds_loaded : load_core_seeds seeds empty_registry ≡ (returned tt, core_registry)
unfolding load_core_seeds and_then put_core put_core_at index_global get_by_id get_global get set
seeds_loaded = refl

taxi_registered : (register taxi core_registry).0 ≡ returned taxi
unfolding register register_in put_extended put_extended_at index_global get_by_id get_global get
    set
taxi_registered = refl

core_refused : register vehicle core_registry ≡ (raised core_mutation, core_registry)
unfolding register register_in
core_refused = refl

taxi_below : descendant_ids (register taxi core_registry).1 10 true ≡ returned (10 ∷ 20 ∷ 30 ∷ [])
unfolding descendant_ids collect concepts is_descendant_of of_both descends climb climb_by climb_to
    is_in resolve_token found_or_raise get_by_key register register_in put_extended put_extended_at
    index_global get_by_id get_global get set
taxi_below = refl

-- The concept of the user 7 takes the id of the automobile.
my_taxi_takes_id : get_by_id (register my_taxi core_registry).1 20 ≡ some my_taxi
unfolding register register_in put_personal put_for put_owned get_by_id get_global get_personal get
    set
my_taxi_takes_id = refl

register-isolated_example :
    get_by_key (register my_taxi core_registry).1 4 (some 8) ≡ get_by_key core_registry 4 (some 8)
register-isolated_example = register-isolated my_taxi core_registry 4 (some 8) refl (λ e. cc)

register-again_example : register taxi (register taxi core_registry).1 ≡ register taxi core_registry
register-again_example = register-again taxi core_registry taxi taxi_registered

register-by_id_example :
    ((get_by_id (register my_taxi core_registry).1 20 ≡ some automobile)
      ⊎ ((my_taxi.scope ≡ ConceptScope.personal) × (my_taxi.id ≡ 20)))
    × ((owner : Text)
        → my_taxi.scope ≡ ConceptScope.personal
        → my_taxi.owner_user_id ≡ some owner
        → get_global core_registry 4 ≡ none
        → get_personal core_registry (owner, 4) ≡ none
        → get_by_id (register my_taxi core_registry).1 20 ≡ some my_taxi)
unfolding get_by_id get
register-by_id_example = register-by_id my_taxi core_registry 20 automobile refl

register-IsIndexed_example : IsIndexed (register taxi empty_registry).1
register-IsIndexed_example = register-IsIndexed taxi empty_registry empty_registry-IsIndexed

automobile_above : Reaches core_registry 10 0 automobile
unfolding get_by_id get
automobile_above = Reaches.here {d = vehicle} (10, refl, refl) refl

is_descendant_of_iff_example : (is_descendant_of core_registry 2 1 ≡ returned true) ↔ (
    (automobile.id ≢ vehicle.id)
    × ((n : ℕ) × (n < max_ancestry) × Reaches core_registry 10 n automobile))
unfolding resolve_token found_or_raise get_by_key get_by_id get_global get
is_descendant_of_iff_example = is_descendant_of_iff core_registry 2 1 automobile vehicle refl refl
