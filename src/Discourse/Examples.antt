-- ===== src/Discourse/Examples.antt =====
-- Runs of the discourse (pke/src/pke/application/discourse.py): a conversation of the user 1 on a car
-- and then on a house.
use jamesbrain.Common.{
  ℕ, ◌+◌, ◌*◌, ◌/◌, Text, true, ◌==◌, ◌≡◌, refl, Option, none, some, List, [], ◌∷◌, Memᴰ, All, ◌⊎◌,
  if◌then◌else◌, arith,
}
use jamesbrain.Ontology.Dict.{get}
use jamesbrain.Common.{◌↔◌, false}
use jamesbrain.Discourse.{binding_allowed}
use jamesbrain.Discourse.{DiscourseReferent, DiscourseState, is_one_of, focus_ids, ids_of}
use jamesbrain.Discourse.Update.{
  Names, Commit, upsert, type_among, name_among, is_disjoint, reversed, type_of, name_of,
  keep_previous, previous_referent, add_focus, focus_referent, store_pending_query, fade, idle,
  commit_focus,
}
use jamesbrain.Discourse.Ask.{AskStatus, AskResult, add_focus_id, add_focus_ids, ask_focus_ids}
use jamesbrain.Interpretation.Messages.{Message, codes}
use jamesbrain.Discourse.Ingest.{
  EntityMention, IngestIr, IngestStatus, IngestResult, suffix_of, ends_with, is_secondary_type,
  is_owns_key, drop_secondary_participants, match_mention_to_bound, match_first, match_relation,
  match_ir, ingest_focus_ids, apply_ingest_to_discourse,
}
use jamesbrain.Discourse.Written.{IsNamed, apply_ingest_to_discourse-focus}
use jamesbrain.Discourse.Bounds.{IsBounded, discourse-IsBounded}
use jamesbrain.Discourse.Allowed.{is_known, binding_allowed_iff, commit_focus-referents}
use jamesbrain.Discourse.Focus.{IsFocus, ask_focus_ids-IsFocus}

-- Rounding to the nearest thousandth.
abbrev faded : ℕ → ℕ
faded n = (n * 85 + 50) / 100

abbrev start : DiscourseState ℕ
start = record {
  active_focus = none;
  recent_referents = [];
  last_query_primitive = none;
  last_relation_type = none;
  last_result_kind = none;
  last_update_reason = none;
  pending_intent = none;
  idle_turns = 0;
}

abbrev plain : Commit
plain = record {
  primitive = some "relation";
  relation_type = none;
  target_type = none;
  result_kind = none;
  types = [];
  names = [];
  reason = none;
  clear_pending = true;
}

abbrev car : AskResult
car = record {
  status = AskStatus.answered;
  query_result = none;
  resolved_entity_ids = 1 ∷ 5 ∷ 0 ∷ 5 ∷ [];
  resolved_spec = none;
}

car_focus : ask_focus_ids car (some 1) ≡ 5 ∷ []
unfolding ask_focus_ids add_focus_ids add_focus_id is_one_of
car_focus = refl

-- The car is still spoken of when the house comes into focus.
house_after_car :
    ids_of
      (commit_focus faded (commit_focus faded start (5 ∷ []) plain) (6 ∷ []) plain).recent_referents
    ≡ 6 ∷ 5 ∷ []
unfolding commit_focus fade keep_previous previous_referent add_focus focus_referent upsert
    is_disjoint reversed is_one_of type_of name_of type_among name_among get
house_after_car = refl

discourse-IsBounded_example :
    IsBounded (idle faded start)
    × ((ids : List Text) (c : Commit) → IsBounded (commit_focus faded start ids c))
    × ((dimension : Option Text) (dump : ℕ) (ids : List Text) (types names : Names)
        → IsBounded (store_pending_query start dimension dump ids types names))
discourse-IsBounded_example = discourse-IsBounded faded start (omega arith, tt)

commit_focus-referents_example :
    (r : DiscourseReferent) × Memᴰ r (commit_focus faded start (5 ∷ 6 ∷ []) plain).recent_referents
    × (r.entity_id ≡ 5)
commit_focus-referents_example =
    commit_focus-referents faded start (5 ∷ 6 ∷ []) plain 5 (omega arith) (Memᴰ.head refl)

binding_allowed_iff_example :
    (binding_allowed (some start) (some 5) ≡ true)
    ↔ ((◌≡◌ {A = Text} 5 0) ⊎ ((is_known start 5 ≡ true) ⊎ ((j : Text) → is_known start j ≡ false)))
binding_allowed_iff_example = binding_allowed_iff start 5

ask_focus_ids-IsFocus_example : IsFocus (some 1) (ask_focus_ids car (some 1))
ask_focus_ids-IsFocus_example = ask_focus_ids-IsFocus (some 1) car

-- The texts of the run: 40 is `place.store`, 41 is `relation.owns`, all others are empty.
abbrev lowered : Text → Message
lowered t = if t == 40 then codes "place.store" else if t == 41 then codes "relation.owns" else []

abbrev written : IngestResult
written = record {
  status = IngestStatus.committed;
  bound_entity_ids = 1 ∷ 7 ∷ 8 ∷ [];
  materialization = some record { created_entity_ids = 7 ∷ 9 ∷ []; reused_entity_ids = 1 ∷ 8 ∷ [] };
}

abbrev someone : EntityMention
someone = record { text = 0; known_entity_id = some 1 }

abbrev owns : IngestIr
owns = record {
  attribute = none;
  measurement = none;
  event = none;
  relation = some record { relation_key = 41; subject = someone; object = someone };
  discourse_decision = none;
}

-- A statement on ownership that created two entities brings the only one that it reused into focus.
owned_focus : ingest_focus_ids (λ t. t) lowered written (some 1) (some owns) [] [] ≡ 8 ∷ []
unfolding ingest_focus_ids match_ir match_relation match_first match_mention_to_bound is_owns_key
    ends_with is_one_of drop_secondary_participants is_secondary_type suffix_of get
owned_focus = refl

-- Of a person and a store only the person.
no_store_focus : drop_secondary_participants lowered (7 ∷ 8 ∷ []) ((8, 40) ∷ []) ≡ 7 ∷ []
unfolding drop_secondary_participants is_secondary_type suffix_of get
no_store_focus = refl

apply_ingest_to_discourse-focus_example :
    All
      (λ i. IsNamed written (some 1) i ⊎ Memᴰ i (focus_ids start.active_focus))
      (focus_ids
        (apply_ingest_to_discourse faded
          (λ t. t)
          lowered
          start
          written
          (some 1)
          []
          []
          (some owns)
          none).active_focus)
apply_ingest_to_discourse-focus_example =
    apply_ingest_to_discourse-focus faded start (some owns) [] [] none (λ t. t) lowered written
      (some 1)
