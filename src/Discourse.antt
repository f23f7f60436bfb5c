-- ===== src/Discourse.antt =====
-- What a conversation is about (pke/src/pke/interpretation/discourse.py): the focus, the entities
-- spoken of, and a question that waits for its subject. A salience is in thousandths.
pub mod Update
pub mod Ask
pub mod Ingest
pub mod Bounds
pub mod Allowed
pub mod Focus
pub mod Written
pub mod Examples
use Prim.Native.String.{String}
use jamesbrain.Common.{
  ℕ, Text, Bool, true, false, not, ◌&&◌, ◌||◌, Option, none, some, List, [], ◌∷◌, ◌++◌, map,
  if◌then◌else◌, ◌==◌,
}

pub record DiscourseReferent : Type 0 where
  pub entity_id : Text
  pub type_key : Option Text
  pub display_name : Option Text
  pub role : Option String
  pub salience : ℕ

pub record DiscourseFocus : Type 0 where
  pub primitive : Option String
  pub relation_type : Option Text
  pub target_type : Option Text
  pub entity_ids : List Text
  pub display_name : Option Text

-- `query_dump` is the dump of a query, `Q`.
pub record DiscoursePendingIntent (Q : Type 0) : Type 0 where
  pub operation : String
  pub attribute_dimension_key : Option Text
  pub missing_role : Option String
  pub candidate_entity_ids : List Text
  pub query_dump : Option Q

pub record DiscourseState (Q : Type 0) : Type 0 where
  pub active_focus : Option DiscourseFocus
  pub recent_referents : List DiscourseReferent
  pub last_query_primitive : Option String
  pub last_relation_type : Option Text
  pub last_result_kind : Option String
  pub last_update_reason : Option String
  pub pending_intent : Option (DiscoursePendingIntent Q)
  pub idle_turns : ℕ

abbrev pub max_recent_referents : ℕ
max_recent_referents = 8

abbrev pub max_idle_turns : ℕ
max_idle_turns = 8

-- `eid in ids`
unfoldable pub is_one_of : Text → List Text → Bool
is_one_of i [] = false
is_one_of i (j ∷ js) = i == j || is_one_of i js

-- `add` of `allowed_entity_ids`: an id that is empty or was added before is skipped.
unfoldable pub add_id : List Text → Text → List Text
unfolding is_one_of
add_id ids j = if not (j == 0) && not (is_one_of j ids) then ids ++ (j ∷ []) else ids

-- One of its loops.
unfoldable pub add_ids : List Text → List Text → List Text
unfolding add_id
add_ids ids [] = ids
add_ids ids (j ∷ js) = add_ids (add_id ids j) js

abbrev pub focus_ids : Option DiscourseFocus → List Text
focus_ids none = []
focus_ids (some f) = f.entity_ids

abbrev pub ids_of : List DiscourseReferent → List Text
ids_of items = map (λ r. r.entity_id) items

-- The end of `binding_allowed`, on the ids allowed.
unfoldable pub allows : List Text → Text → Bool
unfolding is_one_of
allows [] j = true
allows (a ∷ rest) j = is_one_of j (a ∷ rest)

module _ {Q : Type 0} where
  abbrev pub candidates_of : Option (DiscoursePendingIntent Q) → List Text
  candidates_of none = []
  candidates_of (some p) = p.candidate_entity_ids

  unfoldable pub allowed_entity_ids : Option (DiscourseState Q) → List Text
  unfolding add_ids
  allowed_entity_ids none = []
  allowed_entity_ids (some s) =
      add_ids (add_ids (add_ids [] (focus_ids s.active_focus)) (ids_of s.recent_referents))
        (candidates_of s.pending_intent)

  -- `binding_allowed` of pke/src/pke/application/discourse.py.
  unfoldable pub binding_allowed : Option (DiscourseState Q) → Option Text → Bool
  unfolding allowed_entity_ids allows
  binding_allowed s none = true
  binding_allowed s (some i) = if i == 0 then true else allows (allowed_entity_ids s) i
