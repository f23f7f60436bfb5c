-- ===== src/Corrections.antt =====
-- The ledger of corrections (pke/src/pke/domain/corrections.py) and the resolver of what is still
-- effective (pke/src/pke/query/effectiveness.py). Of a correction, its source and the time of its
-- recording are left out, and so is the validator of a reference, that neither of its ids is blank.
pub mod Effectiveness
mod Examples
use jamesbrain.Common.{
  ℕ, Text, Bool, true, false, not, ◌&&◌, ◌||◌, List, [], ◌∷◌, ◌++◌, Option, none, some,
  if◌then◌else◌, ◌==◌, is_some,
}

pub data KnowledgePrimitiveKind : Type 0 where
  event measurement relation state attribute : KnowledgePrimitiveKind

pub data CorrectionOperation : Type 0 where
  retract replace : CorrectionOperation

pub data AssertionEffectiveness : Type 0 where
  effective ineffective unknown : AssertionEffectiveness

pub record KnowledgeReference : Type 0 where
  pub kind : KnowledgePrimitiveKind
  pub assertion_id : Text
  pub user_id : Text

-- The `value` of a kind: five different texts.
abbrev pub kind_value : KnowledgePrimitiveKind → Text
kind_value KnowledgePrimitiveKind.event = 1
kind_value KnowledgePrimitiveKind.measurement = 2
kind_value KnowledgePrimitiveKind.relation = 3
kind_value KnowledgePrimitiveKind.state = 4
kind_value KnowledgePrimitiveKind.attribute = 5

abbrev pub IdentityKey : Type 0
IdentityKey = Text × Text × Text

unfoldable pub identity_key : KnowledgeReference → IdentityKey
identity_key r = (r.user_id, kind_value r.kind, r.assertion_id)

unfoldable pub same_key : IdentityKey → IdentityKey → Bool
same_key a b = a.0 == b.0 && (a.1 == b.1 && a.2 == b.2)

pub record Correction : Type 0 where
  pub id : Text
  pub user_id : Text
  pub operation : CorrectionOperation
  pub target : KnowledgeReference
  pub replacement : Option KnowledgeReference

-- The validator `_invariants`: the checks on the replacement, by operation.
unfoldable pub replacement_fits :
    Text → KnowledgeReference → CorrectionOperation → Option KnowledgeReference → Bool
unfolding identity_key same_key
replacement_fits user target CorrectionOperation.retract none = true
replacement_fits user target CorrectionOperation.retract (some r) = false
replacement_fits user target CorrectionOperation.replace none = false
replacement_fits user target CorrectionOperation.replace (some r) =
    r.user_id == user && not (same_key (identity_key r) (identity_key target))

-- `none` is the `ValueError` of the validator.
unfoldable pub validate : Correction → Option Correction
unfolding replacement_fits
validate c =
    if c.target.user_id == c.user_id
      && replacement_fits c.user_id c.target c.operation c.replacement
    then some c
    else none

abbrev pub Incoming : Type 0
Incoming = List (IdentityKey × Correction)

-- `AssertionEffectivenessResolver`
pub record Resolver : Type 0 where
  pub incoming : Incoming
  pub unknown_keys : List IdentityKey

unfoldable pub put : IdentityKey → Correction → Incoming → Incoming
unfolding same_key
put k c [] = (k, c) ∷ []
put k c ((j, d) ∷ rest) = if same_key j k then (k, c) ∷ rest else (j, d) ∷ put k c rest

unfoldable pub find : IdentityKey → Incoming → Option Correction
unfolding same_key
find k [] = none
find k ((j, d) ∷ rest) = if same_key j k then some d else find k rest

-- The loop of `__init__`
unfoldable pub index : Incoming → List Correction → Incoming
unfolding put identity_key
index table [] = table
index table (c ∷ cs) = index (put (identity_key c.target) c table) cs

unfoldable pub from_corrections : List Correction → List IdentityKey → Resolver
unfolding index
from_corrections cs keys = record { incoming = index [] cs; unknown_keys = keys }

unfoldable pub in_keys : IdentityKey → List IdentityKey → Bool
unfolding same_key
in_keys k [] = false
in_keys k (j ∷ js) = same_key j k || in_keys k js

unfoldable pub resolve : Resolver → KnowledgeReference → AssertionEffectiveness
unfolding in_keys find identity_key
resolve r ref =
    if in_keys (identity_key ref) r.unknown_keys
    then AssertionEffectiveness.unknown
    else if is_some (find (identity_key ref) r.incoming)
    then AssertionEffectiveness.ineffective
    else AssertionEffectiveness.effective

unfoldable pub explain : Resolver → KnowledgeReference → Option Correction
unfolding find identity_key
explain r ref = find (identity_key ref) r.incoming

abbrev pub add_by : {A : Type 0} → AssertionEffectiveness → A → List A × List A → List A × List A
add_by AssertionEffectiveness.effective a (es, us) = (es ++ a ∷ [], us)
add_by AssertionEffectiveness.ineffective a (es, us) = (es, us)
add_by AssertionEffectiveness.unknown a (es, us) = (es, us ++ a ∷ [])

-- `filter_effective`: the effective items and the unknown ones, in their order.
module _ {A : Type 0} (kind : KnowledgePrimitiveKind) (user_id : Text) (r : Resolver)
    (id_of : A → Text) where
  abbrev pub reference_of : A → KnowledgeReference
  reference_of a = record { kind = kind; assertion_id = id_of a; user_id = user_id }

  unfoldable pub filter_from : List A × List A → List A → List A × List A
  filter_from acc [] = acc
  filter_from acc (a ∷ rest) = filter_from (add_by (resolve r (reference_of a)) a acc) rest

  unfoldable pub filter_effective : List A → List A × List A
  unfolding filter_from
  filter_effective items = filter_from ([], []) items
