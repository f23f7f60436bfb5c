-- ===== src/Ontology/Registry.antt =====
-- The registry of concepts (`OntologyRegistry` of pke/src/pke/ontology/registry.py). An operation
-- returns what it returns or raises, and the registry after it.
pub mod Lookups
pub mod Put
pub mod Keeps
pub mod Visible
pub mod Indexed
pub mod Seeds
pub mod Ancestry
use jamesbrain.Common.{
  ℕ, zero, suc, Text, Bool, true, false, not, ◌&&◌, Option, none, some, or_else, List, [], ◌∷◌,
  ◌++◌, map, if◌then◌else◌, is_some, is_filled, ◌==◌, filter,
}
use jamesbrain.Ontology.Dict.{get, set}
use jamesbrain.Ontology.Concept.{
  ConceptScope, ConceptKind, ConceptRef, OntologyConcept, is_core, as_ref, kind_code, scope_code,
  same_identity,
}

-- The exceptions of pke/src/pke/ontology/errors.py.
pub data OntologyError : Type 0 where
  concept_conflict concept_kind concept_not_found core_mutation : OntologyError

pub data Outcome (A : Type 0) : Type 0 where
  returned : A → Outcome A
  raised : OntologyError → Outcome A

-- The key of `_personal`: an owner and a key.
abbrev pub Slot : Type 0
Slot = Text × Text

abbrev pub same_slot : Slot → Slot → Bool
same_slot (u, k) (v, j) = u == v && k == j

pub record OntologyRegistry : Type 0 where
  pub by_id : List (Text × OntologyConcept)
  pub global_by_key : List (Text × OntologyConcept)
  pub personal : List (Slot × OntologyConcept)
  pub core_frozen : Bool

-- `OntologyRegistry()`
abbrev pub empty_registry : OntologyRegistry
empty_registry = record { by_id = []; global_by_key = []; personal = []; core_frozen = false }

unfoldable pub get_by_id : OntologyRegistry → Text → Option OntologyConcept
get_by_id r i = get ◌==◌ i r.by_id

-- `_global_by_key.get`
unfoldable pub get_global : OntologyRegistry → Text → Option OntologyConcept
get_global r k = get ◌==◌ k r.global_by_key

-- `_personal.get`
unfoldable pub get_personal : OntologyRegistry → Slot → Option OntologyConcept
get_personal r s = get same_slot s r.personal

unfoldable pub get_by_key : OntologyRegistry → Text → Option Text → Option OntologyConcept
unfolding get_global get_personal
get_by_key r k none = get_global r k
get_by_key r k (some owner) = or_else (get_personal r (owner, k)) (get_global r k)

unfoldable pub exists : OntologyRegistry → Text → Option Text → Bool
unfolding get_by_key
exists r k owner = is_some (get_by_key r k owner)

-- `_index_global`
unfoldable pub index_global :
    OntologyConcept → OntologyRegistry → Outcome OntologyConcept × OntologyRegistry
unfolding get_by_id
index_global c r = if is_some (get_by_id r c.id) then (raised concept_conflict, r) else (
  returned c,
  record r { by_id = set ◌==◌ c.id c r.by_id; global_by_key = set ◌==◌ c.key c r.global_by_key },
)

-- `_put_core`, by what the key names.
unfoldable pub put_core_at :
    Option OntologyConcept
    → OntologyConcept
    → OntologyRegistry
    → Outcome OntologyConcept × OntologyRegistry
unfolding index_global
put_core_at none c r = if r.core_frozen then (raised core_mutation, r) else index_global c r
put_core_at (some existing) c r =
    if same_identity existing c then (returned existing, r) else (raised core_mutation, r)

-- `_put_core`
unfoldable pub put_core :
    OntologyConcept → OntologyRegistry → Outcome OntologyConcept × OntologyRegistry
unfolding get_global put_core_at
put_core c r = put_core_at (get_global r c.key) c r

-- `_put_extended`, by what the key names.
unfoldable pub put_extended_at :
    Option OntologyConcept
    → OntologyConcept
    → OntologyRegistry
    → Outcome OntologyConcept × OntologyRegistry
unfolding index_global
put_extended_at none c r = index_global c r
put_extended_at (some existing) c r =
    if is_core existing.scope
    then (raised concept_conflict, r)
    else if same_identity existing c
    then (returned existing, r)
    else (raised concept_conflict, r)

-- `_put_extended`
unfoldable pub put_extended :
    OntologyConcept → OntologyRegistry → Outcome OntologyConcept × OntologyRegistry
unfolding get_global put_extended_at
put_extended c r = put_extended_at (get_global r c.key) c r

-- The end of `_put_personal`, with the owner that it found.
unfoldable pub put_owned :
    Text → OntologyConcept → OntologyRegistry → Outcome OntologyConcept × OntologyRegistry
unfolding get_global get_personal
put_owned owner c r =
    if is_some (get_global r c.key)
    then (raised concept_conflict, r)
    else elim (get_personal r (owner, c.key)) [
      | some existing ↦
          if same_identity existing c then (returned existing, r) else (raised concept_conflict, r)
      | none ↦ (
        returned c,
        record r {
          by_id = set ◌==◌ c.id c r.by_id;
          personal = set same_slot (owner, c.key) c r.personal;
        },
      )
    ]

-- `_put_personal`, by the owner of the concept.
unfoldable pub put_for :
    Option Text → OntologyConcept → OntologyRegistry → Outcome OntologyConcept × OntologyRegistry
unfolding put_owned
put_for none c r = (raised concept_conflict, r)
put_for (some owner) c r = put_owned owner c r

-- `_put_personal`
unfoldable pub put_personal :
    OntologyConcept → OntologyRegistry → Outcome OntologyConcept × OntologyRegistry
unfolding put_for
put_personal c r = put_for c.owner_user_id c r

-- The branches of `register`, by the scope of the concept.
unfoldable pub register_in :
    ConceptScope → OntologyConcept → OntologyRegistry → Outcome OntologyConcept × OntologyRegistry
unfolding put_personal put_extended
register_in ConceptScope.core c r = (raised core_mutation, r)
register_in ConceptScope.personal c r = put_personal c r
register_in ConceptScope.extended c r = put_extended c r

unfoldable pub register :
    OntologyConcept → OntologyRegistry → Outcome OntologyConcept × OntologyRegistry
unfolding register_in
register c r = register_in c.scope c r

-- What follows a put that did not raise.
unfoldable pub and_then :
    Outcome OntologyConcept × OntologyRegistry
    → (OntologyRegistry → Outcome Unit × OntologyRegistry)
    → Outcome Unit × OntologyRegistry
and_then (returned _, r) next = next r
and_then (raised e, r) next = (raised e, r)

-- `load_core_seeds` on the concepts of the seeds: the first that is refused ends it.
unfoldable pub load_core_seeds :
    List OntologyConcept → OntologyRegistry → Outcome Unit × OntologyRegistry
unfolding put_core and_then
load_core_seeds [] r = (returned tt, record r { core_frozen = true })
load_core_seeds (c ∷ cs) r = and_then (put_core c r) (load_core_seeds cs)

-- `_assert_kind`, as the test that it does not raise.
unfoldable pub kind_fits : OntologyConcept → Option ConceptKind → Bool
kind_fits c none = true
kind_fits c (some k) = kind_code c.kind == kind_code k

abbrev scope_fits : OntologyConcept → Option ConceptScope → Bool
scope_fits c none = true
scope_fits c (some s) = scope_code c.scope == scope_code s

unfoldable pub require :
    OntologyRegistry
    → Text
    → Option Text
    → Option ConceptKind
    → Option ConceptScope
    → Outcome OntologyConcept
unfolding get_by_key kind_fits
require r key owner kind scope = elim (get_by_key r key owner) [
  | none ↦ raised concept_not_found
  | some c ↦
      if not (kind_fits c kind)
      then raised concept_kind
      else if not (scope_fits c scope)
      then raised concept_conflict
      else returned c
]

-- The concept id of a reference differs from that of the concept found.
abbrev id_differs : Option Text → Text → Bool
id_differs none i = false
id_differs (some j) i = not (j == i)

-- The concept id of a reference is that of a concept with another key.
abbrev key_differs : OntologyRegistry → ConceptRef → Bool
key_differs r ref = elim ref.concept_id [
  | none ↦ false
  | some i ↦
      is_filled (some i) && elim (get_by_id r i) [ none ↦ false | some c ↦ not (c.key == ref.key) ]
]

unfoldable pub resolve_ref :
    OntologyRegistry → ConceptRef → Option ConceptKind → Option Text → Outcome ConceptRef
unfolding get_by_key get_by_id kind_fits as_ref
resolve_ref r ref kind owner = elim (get_by_key r ref.key owner) [
  | none ↦ raised concept_not_found
  | some c ↦
      if id_differs ref.concept_id c.id
      then raised concept_conflict
      else if key_differs r ref
      then raised concept_conflict
      else if not (kind_fits c kind)
      then raised concept_kind
      else returned (as_ref c)
]
