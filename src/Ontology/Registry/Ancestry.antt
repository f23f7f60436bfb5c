-- ===== src/Ontology/Registry/Ancestry.antt =====
-- The hierarchy of concepts: the parent, the ancestors and the descendants of a concept, and the
-- concepts listed (pke/src/pke/ontology/registry.py).
pub mod Reaches
use jamesbrain.Common.{
  ℕ, zero, suc, Text, Bool, true, false, not, ◌&&◌, ◌||◌, Option, none, some, or_else, List, [],
  ◌∷◌, ◌++◌, map, if◌then◌else◌, ◌==◌, filter,
}
use jamesbrain.Ontology.Concept.{ConceptScope, OntologyConcept, scope_code}
use jamesbrain.Ontology.Registry.{
  OntologyError, Outcome, returned, raised, Slot, OntologyRegistry, get_by_id, get_by_key,
  concept_not_found,
}

unfoldable pub found_or_raise : Option OntologyConcept → Outcome OntologyConcept
found_or_raise none = raised concept_not_found
found_or_raise (some c) = returned c

-- `_resolve_token`: an id, else the key of a concept of everyone.
unfoldable pub resolve_token : OntologyRegistry → Text → Outcome OntologyConcept
unfolding get_by_id get_by_key found_or_raise
resolve_token r token = found_or_raise (or_else (get_by_id r token) (get_by_key r token none))

-- `token in seen`
unfoldable pub is_in : Text → List Text → Bool
is_in p [] = false
is_in p (q ∷ qs) = p == q || is_in p qs

abbrev pub is_parent : Option Text → Text → Bool
is_parent none i = false
is_parent (some p) i = p == i

-- What is computed from two tokens, when both name a concept.
unfoldable pub of_both :
    (OntologyConcept → OntologyConcept → Bool)
    → Outcome OntologyConcept
    → Outcome OntologyConcept
    → Outcome Bool
of_both f (returned c) (returned d) = returned (f c d)
of_both f (returned c) (raised e) = raised e
of_both f (raised e) _ = raised e

unfoldable pub is_child_of : OntologyRegistry → Text → Text → Outcome Bool
unfolding resolve_token of_both
is_child_of r concept parent =
    of_both (λ c d. is_parent c.parent_id d.id) (resolve_token r concept) (resolve_token r parent)

-- The end of a round of `is_descendant_of`, with the parent that the id names.
unfoldable pub climb_to : Option OntologyConcept → Text → (OntologyConcept → Bool) → Bool
climb_to none target next = false
climb_to (some parent) target next = if parent.id == target then true else next parent

-- A round of `is_descendant_of`, with the id of the parent.
unfoldable pub climb_by :
    Option Text → OntologyRegistry → Text → List Text → (List Text → OntologyConcept → Bool) → Bool
unfolding is_in climb_to
climb_by none r target seen next = false
climb_by (some p) r target seen next =
    if is_in p seen then false else climb_to (get_by_id r p) target (next (p ∷ seen))

-- The rounds of `is_descendant_of` that are left.
unfoldable pub climb : ℕ → OntologyRegistry → Text → List Text → OntologyConcept → Bool
unfolding climb_by
climb zero r target seen c = false
climb (suc n) r target seen c = climb_by c.parent_id r target seen (climb n r target)

-- `_MAX_ANCESTRY`
abbrev pub max_ancestry : ℕ
max_ancestry = 32

unfoldable pub descends : OntologyRegistry → OntologyConcept → OntologyConcept → Bool
unfolding climb
descends r c d = if c.id == d.id then false else climb max_ancestry r d.id [] c

unfoldable pub is_descendant_of : OntologyRegistry → Text → Text → Outcome Bool
unfolding resolve_token of_both descends
is_descendant_of r concept ancestor =
    of_both (descends r) (resolve_token r concept) (resolve_token r ancestor)

abbrev values : {K : Type 0} → List (K × OntologyConcept) → List OntologyConcept
values entries = map (λ e. e.1) entries

-- `concepts`: with no scope everything, with the personal scope those of an owner or of all.
unfoldable pub concepts :
    OntologyRegistry → Option ConceptScope → Option Text → List OntologyConcept
concepts r none owner = values r.global_by_key ++ values r.personal
concepts r (some ConceptScope.personal) none = values r.personal
concepts r (some ConceptScope.personal) (some owner) =
    values (filter (λ e. e.0.0 == owner) r.personal)
concepts r (some s) _ = filter (λ c. scope_code c.scope == scope_code s) (values r.global_by_key)

-- The loop of `descendant_ids`.
unfoldable pub collect :
    OntologyRegistry → OntologyConcept → List OntologyConcept → Outcome (List Text)
unfolding is_descendant_of
collect r root [] = returned []
collect r root (c ∷ cs) =
    let rest = collect r root cs in
    if c.id == root.id then rest else elim (is_descendant_of r c.id root.id) [
      | raised e ↦ raised e
      | returned below ↦ elim rest [
        | raised e ↦ raised e
        | returned ids ↦ returned (if below then c.id ∷ ids else ids)
      ]
    ]

unfoldable pub descendant_ids : OntologyRegistry → Text → Bool → Outcome (List Text)
unfolding resolve_token collect concepts
descendant_ids r ancestor include_self = elim (resolve_token r ancestor) [
  | raised e ↦ raised e
  | returned root ↦ elim (collect r root (concepts r none none)) [
    | raised e ↦ raised e
    | returned ids ↦ returned (if include_self then root.id ∷ ids else ids)
  ]
]
