-- ===== src/Discourse/Ask.antt =====
-- The update of the discourse after a question (pke/src/pke/application/discourse.py), on what it reads
-- of the answer (pke/src/pke/application/ask_results.py).
use Prim.Native.String.{String}
use jamesbrain.Common.{
  ℕ, Text, Bool, true, false, ◌||◌, Option, none, some, List, [], ◌∷◌, ◌++◌, map, if◌then◌else◌,
  ◌==◌, same_text, is_filled, is_some,
}
use jamesbrain.Ontology.Dict.{get}
use jamesbrain.Discourse.{DiscourseState, is_one_of}
use jamesbrain.Discourse.Update.{Names, Commit, idle, commit_focus}

pub data AskStatus : Type 0 where
  answered needs_clarification no_results rejected unsupported : AskStatus

pub record AskRelation : Type 0 where
  pub object_entity_id : Option Text
  pub relation_key : Option Text

-- What is read of `query_result`.
pub record AskQueryResult : Type 0 where
  pub current_relations : List AskRelation
  pub relation_answer : Option Text
  pub attribute_values : List Text
  pub items : List (List Text)

-- What is read of `resolved_spec`.
pub record AskSpec : Type 0 where
  pub relation_type_ids : List Text
  pub attribute_dimension_key : Option Text
  pub measurement_dimension_key : Option Text
  pub state_dimension_ids : List Text
  pub state_value_ids : List Text
  pub event_type_ids : List Text
  pub action_ids : List Text

pub record AskResult : Type 0 where
  pub status : AskStatus
  pub query_result : Option AskQueryResult
  pub resolved_entity_ids : List Text
  pub resolved_spec : Option AskSpec

abbrev holds_some : List Text → Bool
holds_some [] = false
holds_some _ = true

-- `_primitive_from_spec`
unfoldable pub primitive_from_spec : AskSpec → String
primitive_from_spec s =
    if holds_some s.relation_type_ids
    then "relation"
    else if is_filled s.attribute_dimension_key
    then "attribute"
    else if is_filled s.measurement_dimension_key
    then "measurement"
    else if holds_some s.state_dimension_ids || holds_some s.state_value_ids
    then "state"
    else if holds_some s.event_type_ids || holds_some s.action_ids
    then "event"
    else "query"

-- `add` of `_ask_focus_ids`: no empty id, not the one who asks, none twice.
unfoldable pub add_focus_id : Option Text → List Text → Option Text → List Text
unfolding is_one_of
add_focus_id principal ids none = ids
add_focus_id principal ids (some i) =
    if i == 0 || (same_text (some i) principal || is_one_of i ids) then ids else ids ++ (i ∷ [])

unfoldable pub add_focus_ids : Option Text → List Text → List (Option Text) → List Text
unfolding add_focus_id
add_focus_ids principal ids [] = ids
add_focus_ids principal ids (i ∷ is) = add_focus_ids principal (add_focus_id principal ids i) is

abbrev pub some_ids : List Text → List (Option Text)
some_ids ids = map some ids

abbrev concat : List (List Text) → List Text
concat [] = []
concat (is ∷ rest) = is ++ concat rest

-- `x or y` of lists.
abbrev pub or_list : List Text → List Text → List Text
or_list [] ys = ys
or_list (x ∷ xs) ys = x ∷ xs

abbrev pub relation_objects : Option AskQueryResult → List (Option Text)
relation_objects none = []
relation_objects (some q) = map (λ r. r.object_entity_id) q.current_relations

abbrev pub item_ids : Option AskQueryResult → List Text
item_ids none = []
item_ids (some q) = concat q.items

-- `_ask_focus_ids`: the objects of the relations found, else the entities resolved, else those of the
-- items.
unfoldable pub ask_focus_ids : AskResult → Option Text → List Text
unfolding add_focus_ids
ask_focus_ids r principal = or_list (add_focus_ids principal [] (relation_objects r.query_result)) (
    or_list (add_focus_ids principal [] (some_ids r.resolved_entity_ids))
      (add_focus_ids principal [] (some_ids (item_ids r.query_result))))

-- The first relation key that is not empty.
abbrev first_key : List AskRelation → Option Text
first_key [] = none
first_key (r ∷ rs) =
    let rest = first_key rs in if is_filled r.relation_key then r.relation_key else rest

abbrev answer_relation : Option AskSpec → Option AskQueryResult → Option Text
answer_relation (some s) (some q) =
    if holds_some s.relation_type_ids then first_key q.current_relations else none
answer_relation _ _ = none

abbrev answer_kind : Option AskSpec → Option AskQueryResult → Option String
answer_kind (some s) (some q) =
    if is_some q.relation_answer
    then some "boolean"
    else if holds_some q.attribute_values
    then some "attribute"
    else none
answer_kind _ _ = none

-- The type of the first entity that has one.
unfoldable pub first_type : Names → List Text → Option Text
unfolding get
first_type types [] = none
first_type types (i ∷ is) =
    if is_filled (get ◌==◌ i types) then get ◌==◌ i types else first_type types is

-- What `apply_ask_to_discourse` passes to `_commit_focus` beside the ids.
unfoldable pub commit_of : AskResult → List Text → Names → Names → Bool → Commit
unfolding first_type primitive_from_spec
commit_of r ids types names clear = record {
  primitive = elim r.resolved_spec [ none ↦ none | some p ↦ some (primitive_from_spec p) ];
  relation_type = answer_relation r.resolved_spec r.query_result;
  target_type = first_type types ids;
  result_kind = answer_kind r.resolved_spec r.query_result;
  types = types;
  names = names;
  reason = some "successful_query";
  clear_pending = clear;
}

module _ {Q : Type 0} (faded : ℕ → ℕ) where
  -- The end of `apply_ask_to_discourse`, with the ids in focus.
  unfoldable pub focus_or_idle :
      DiscourseState Q → AskResult → List Text → Names → Names → Bool → DiscourseState Q
  unfolding idle commit_focus commit_of
  focus_or_idle s r [] types names clear = idle faded s
  focus_or_idle s r (i ∷ is) types names clear =
      commit_focus faded s (i ∷ is) (commit_of r (i ∷ is) types names clear)

  unfoldable pub apply_ask_to_discourse :
      DiscourseState Q → AskResult → Option Text → Names → Names → Bool → DiscourseState Q
  unfolding focus_or_idle ask_focus_ids
  apply_ask_to_discourse s r principal types names clear = elim r.status [
    | AskStatus.needs_clarification ↦ s
    | _ ↦ focus_or_idle s r (ask_focus_ids r principal) types names clear
  ]
