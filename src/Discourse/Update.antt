-- ===== src/Discourse/Update.antt =====
-- The updates of the discourse after an answer (pke/src/pke/application/discourse.py). `faded` is
-- `round(salience * 0.85, 3)` in thousandths, an operation of Python's floats.
use Prim.Native.String.{String}
use jamesbrain.Common.{
  ℕ, ◌+◌, Text, Bool, true, false, not, ◌&&◌, Option, none, some, List, [], ◌∷◌, ◌++◌,
  if◌then◌else◌, ◌==◌, ltb, is_filled, filter, take, or_else,
}
use jamesbrain.Ontology.Dict.{get}
use jamesbrain.Discourse.{
  DiscourseReferent, DiscourseFocus, DiscourseState, max_recent_referents, max_idle_turns,
  is_one_of, focus_ids,
}

-- A `dict` from ids to texts.
abbrev pub Names : Type 0
Names = List (Text × Text)

-- `x or y` of optional texts.
abbrev pub or_text : Option Text → Option Text → Option Text
or_text x y = if is_filled x then x else y

-- `_upsert`
unfoldable pub upsert : List DiscourseReferent → DiscourseReferent → List DiscourseReferent
upsert items incoming = incoming ∷ filter (λ r. not (r.entity_id == incoming.entity_id)) items

-- `item.type_key` of the first referent of the id.
unfoldable pub type_among : Text → List DiscourseReferent → Option (Option Text)
type_among i [] = none
type_among i (r ∷ rs) = if r.entity_id == i then some r.type_key else type_among i rs

-- The name of the first referent of the id that has one.
unfoldable pub name_among : Text → List DiscourseReferent → Option Text
name_among i [] = none
name_among i (r ∷ rs) =
    if r.entity_id == i && is_filled r.display_name then r.display_name else name_among i rs

abbrev focus_type : Text → Option DiscourseFocus → Option Text
focus_type i none = none
focus_type i (some f) = if is_one_of i f.entity_ids then f.target_type else none

abbrev focus_name : Text → Option DiscourseFocus → Option Text
focus_name i none = none
focus_name i (some f) =
    if is_filled f.display_name && is_one_of i f.entity_ids then f.display_name else none

-- `set(previous).isdisjoint(set(ids))`
unfoldable pub is_disjoint : List Text → List Text → Bool
unfolding is_one_of
is_disjoint [] ids = true
is_disjoint (p ∷ ps) ids = not (is_one_of p ids) && is_disjoint ps ids

abbrev is_empty : List Text → Bool
is_empty [] = true
is_empty _ = false

-- `reversed(ids)`
unfoldable pub reversed : List Text → List Text
reversed [] = []
reversed (i ∷ is) = reversed is ++ (i ∷ [])

-- What the callers of `_commit_focus` pass beside the ids.
pub record Commit : Type 0 where
  pub primitive : Option String
  pub relation_type : Option Text
  pub target_type : Option Text
  pub result_kind : Option String
  pub types : Names
  pub names : Names
  pub reason : Option String
  pub clear_pending : Bool

-- `_fade`
unfoldable pub fade : (ℕ → ℕ) → List DiscourseReferent → List DiscourseReferent
fade faded [] = []
fade faded (r ∷ rs) =
    let rest = fade faded rs in
    if ltb (faded r.salience) 200 then rest else record r { salience = faded r.salience } ∷ rest

module _ {Q : Type 0} where
  -- `_type_of`
  unfoldable pub type_of : Text → Names → DiscourseState Q → Option Text
  unfolding type_among get
  type_of i types s = elim (get ◌==◌ i types) [
    | some t ↦ some t
    | none ↦ elim (type_among i s.recent_referents) [
      | some t ↦ t
      | none ↦ focus_type i s.active_focus
    ]
  ]

  -- `_name_of`
  unfoldable pub name_of : Text → Names → DiscourseState Q → Option Text
  unfolding name_among get
  name_of i names s =
      or_else (get ◌==◌ i names)
        (or_else (name_among i s.recent_referents) (focus_name i s.active_focus))

  unfoldable pub previous_referent : DiscourseState Q → Names → Names → Text → DiscourseReferent
  unfolding type_of name_of
  previous_referent s types names p = record {
    entity_id = p;
    type_key = type_of p types s;
    display_name = name_of p names s;
    role = some "previous_focus";
    salience = 600;
  }

  unfoldable pub focus_referent :
      DiscourseState Q → Names → Names → Option Text → Text → DiscourseReferent
  unfolding type_of name_of
  focus_referent s types names target i = record {
    entity_id = i;
    type_key = or_text (get ◌==◌ i types) target;
    display_name = name_of i names s;
    role = some "active_focus";
    salience = 1000;
  }

  unfoldable pub candidate_referent : DiscourseState Q → Names → Names → Text → DiscourseReferent
  unfolding type_of name_of
  candidate_referent s types names i = record {
    entity_id = i;
    type_key = or_text (get ◌==◌ i types) (type_of i types s);
    display_name = or_text (get ◌==◌ i names) (name_of i names s);
    role = some "clarification_candidate";
    salience = 900;
  }

  -- The loop of `_commit_focus` over the ids of the focus before.
  unfoldable pub keep_previous :
      DiscourseState Q
      → Names
      → Names
      → List Text
      → List Text
      → List DiscourseReferent
      → List DiscourseReferent
  unfolding upsert previous_referent
  keep_previous s types names ids [] items = items
  keep_previous s types names ids (p ∷ ps) items =
      keep_previous s types names ids ps
        (if is_one_of p ids then items else upsert items (previous_referent s types names p))

  -- The loop of `_commit_focus` over the ids of the new focus.
  unfoldable pub add_focus :
      DiscourseState Q
      → Names
      → Names
      → Option Text
      → List Text
      → List DiscourseReferent
      → List DiscourseReferent
  unfolding upsert focus_referent
  add_focus s types names target [] items = items
  add_focus s types names target (i ∷ is) items =
      add_focus s types names target is (upsert items (focus_referent s types names target i))

  -- The loop of `store_pending_query` over the candidates.
  unfoldable pub add_candidates :
      DiscourseState Q → Names → Names → List Text → List DiscourseReferent → List DiscourseReferent
  unfolding upsert candidate_referent
  add_candidates s types names [] items = items
  add_candidates s types names (i ∷ is) items =
      add_candidates s types names is (upsert items (candidate_referent s types names i))

  unfoldable pub store_pending_query :
      DiscourseState Q → Option Text → Q → List Text → Names → Names → DiscourseState Q
  unfolding add_candidates
  store_pending_query s dimension dump candidates types names = record s {
    pending_intent = some record {
      operation = "attribute_query";
      attribute_dimension_key = dimension;
      missing_role = some "subject";
      candidate_entity_ids = candidates;
      query_dump = some dump;
    };
    recent_referents =
        take max_recent_referents (add_candidates s types names candidates s.recent_referents);
    last_update_reason = some "pending_query_stored";
  }

  -- The name of the focus: that of its only entity.
  abbrev single_name : List Text → Names → DiscourseState Q → Option Text
  single_name (i ∷ []) names s = name_of i names s
  single_name _ names s = none

  module _ (faded : ℕ → ℕ) where
    -- `_idle`
    unfoldable pub idle : DiscourseState Q → DiscourseState Q
    unfolding fade
    idle s =
        if ltb max_idle_turns (s.idle_turns + 1)
        then record s {
          active_focus = none;
          recent_referents = fade faded s.recent_referents;
          last_update_reason = some "idle_cleared";
          idle_turns = s.idle_turns + 1;
        }
        else record s { idle_turns = s.idle_turns + 1 }

    -- `_commit_focus`
    unfoldable pub commit_focus : DiscourseState Q → List Text → Commit → DiscourseState Q
    unfolding fade keep_previous add_focus is_disjoint reversed
    commit_focus s ids c =
        let previous = focus_ids s.active_focus in
        record {
          active_focus = some record {
            primitive = c.primitive;
            relation_type = c.relation_type;
            target_type = c.target_type;
            entity_ids = ids;
            display_name = single_name ids c.names s;
          };
          recent_referents = take max_recent_referents (
              add_focus s c.types c.names c.target_type ids (
                keep_previous s c.types c.names ids (reversed previous)
                  (fade faded s.recent_referents)));
          last_query_primitive = c.primitive;
          last_relation_type = c.relation_type;
          last_result_kind = c.result_kind;
          last_update_reason =
              if not (is_empty previous) && is_disjoint previous ids
              then some "topic_switch"
              else or_else c.reason (some "new_focus");
          pending_intent = if c.clear_pending then none else s.pending_intent;
          idle_turns = 0;
        }
