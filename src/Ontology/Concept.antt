-- ===== src/Ontology/Concept.antt =====
-- A concept of the ontology and a reference to one (pke/src/pke/domain/ontology.py). The patterns of
-- keys are left out: a key is a text.
use jamesbrain.Common.{
  ℕ, Text, Bool, true, false, not, ◌&&◌, Option, some, is_filled, is_some, ◌==◌, if◌then◌else◌, ◌≡◌,
  refl, arith, same_text, same_text_iff,
}
use jamesbrain.Temporal.Instant.{DateTime}

pub data ConceptScope : Type 0 where
  core extended personal : ConceptScope

pub data ConceptStatus : Type 0 where
  active candidate deprecated rejected : ConceptStatus

pub data ConceptKind : Type 0 where
  entity_type event_type state_dimension state_value : ConceptKind
  relation_type action attribute domain role : ConceptKind

pub record ConceptRef : Type 0 where
  pub key : Text
  pub concept_id : Option Text

pub record ConceptPresentation : Type 0 where
  pub label : Option Text
  pub description : Option Text

pub record OntologyConcept : Type 0 where
  pub id : Text
  pub key : Text
  pub kind : ConceptKind
  pub scope : ConceptScope
  pub status : ConceptStatus
  pub parent_id : Option Text
  pub owner_user_id : Option Text
  pub created_at : DateTime
  pub presentation : Option ConceptPresentation

-- `scope is ConceptScope.PERSONAL`
abbrev pub is_personal : ConceptScope → Bool
is_personal ConceptScope.personal = true
is_personal _ = false

-- `scope is ConceptScope.CORE`
abbrev pub is_core : ConceptScope → Bool
is_core ConceptScope.core = true
is_core _ = false

-- What the validator accepts: a personal concept has an owner, the others have none.
unfoldable pub scope_isolation : OntologyConcept → Bool
scope_isolation c =
    if is_personal c.scope then is_filled c.owner_user_id else not (is_some c.owner_user_id)

unfoldable pub as_ref : OntologyConcept → ConceptRef
as_ref c = record { key = c.key; concept_id = some c.id }

abbrev pub scope_code : ConceptScope → ℕ
scope_code ConceptScope.core = 0
scope_code ConceptScope.extended = 1
scope_code ConceptScope.personal = 2

abbrev pub status_code : ConceptStatus → ℕ
status_code ConceptStatus.active = 0
status_code ConceptStatus.candidate = 1
status_code ConceptStatus.deprecated = 2
status_code ConceptStatus.rejected = 3

abbrev pub kind_code : ConceptKind → ℕ
kind_code ConceptKind.entity_type = 0
kind_code ConceptKind.event_type = 1
kind_code ConceptKind.state_dimension = 2
kind_code ConceptKind.state_value = 3
kind_code ConceptKind.relation_type = 4
kind_code ConceptKind.action = 5
kind_code ConceptKind.attribute = 6
kind_code ConceptKind.domain = 7
kind_code ConceptKind.role = 8

-- `_same_identity` of the registry.
unfoldable pub same_identity : OntologyConcept → OntologyConcept → Bool
same_identity l r =
    l.id == r.id
    && (l.key == r.key
        && (kind_code l.kind == kind_code r.kind
            && (scope_code l.scope == scope_code r.scope
                && (same_text l.parent_id r.parent_id
                    && (status_code l.status == status_code r.status
                        && same_text l.owner_user_id r.owner_user_id)))))

pub same_identity_refl : (c : OntologyConcept) → same_identity c c ≡ true
unfolding same_identity
same_identity_refl c =
    rw ((same_text_iff c.parent_id c.parent_id).1 refl)
      (rw ((same_text_iff c.owner_user_id c.owner_user_id).1 refl) (ground arith))
