-- ===== src/Discourse/Ingest.antt =====
-- The update of the discourse after a statement (pke/src/pke/application/discourse.py), on what it reads
-- of the result (pke/src/pke/application/results.py) and of the interpretation
-- (pke/src/pke/interpretation/models.py). `folded` is `text.strip().casefold()` and `lowered` the codes
-- of `text.strip().lower()`.
use jamesbrain.Common.{
  ℕ, Text, Bool, true, false, not, ◌&&◌, ◌||◌, Option, none, some, List, [], ◌∷◌, filter, length,
  if◌then◌else◌, ◌==◌, leb, is_some, same_text,
}
use jamesbrain.Ontology.Dict.{get}
use jamesbrain.Interpretation.Messages.{Message, codes}
use jamesbrain.Discourse.{DiscourseState, is_one_of}
use jamesbrain.Discourse.Ask.{or_list, first_type}
use jamesbrain.Discourse.Update.{Names, Commit, idle, commit_focus}

pub data IngestStatus : Type 0 where
  committed partial deferred needs_clarification rejected unsupported : IngestStatus

pub data DiscourseDecision : Type 0 where
  continue new_topic ambiguous no_decision : DiscourseDecision

pub record EntityMention : Type 0 where
  pub text : Text
  pub known_entity_id : Option Text

-- `relation_key` is the key of the type.
pub record IrRelation : Type 0 where
  pub relation_key : Text
  pub subject : EntityMention
  pub object : EntityMention

-- Of an attribute and a measurement the subject, of an event the participants.
pub record IngestIr : Type 0 where
  pub attribute : Option EntityMention
  pub measurement : Option EntityMention
  pub event : Option (List EntityMention)
  pub relation : Option IrRelation
  pub discourse_decision : Option DiscourseDecision

pub record MaterializationResult : Type 0 where
  pub created_entity_ids : List Text
  pub reused_entity_ids : List Text

pub record IngestResult : Type 0 where
  pub status : IngestStatus
  pub bound_entity_ids : List Text
  pub materialization : Option MaterializationResult

abbrev same_codes : Message → Message → Bool
same_codes [] [] = true
same_codes (c ∷ m) (d ∷ n) = c == d && same_codes m n
same_codes _ _ = false

-- `text.rsplit(".", 1)[-1]`, with the part after the last dot so far.
unfoldable pub suffix_of : Message → Message → Message
suffix_of part [] = part
suffix_of part (c ∷ text) = suffix_of (if c == 46 then text else part) text

-- `text.endswith(word)`
unfoldable pub ends_with : Message → Message → Bool
ends_with word [] = same_codes word []
ends_with word (c ∷ text) = same_codes word (c ∷ text) || ends_with word text

abbrev is_word : List Message → Message → Bool
is_word [] text = false
is_word (w ∷ words) text = same_codes w text || is_word words text

-- The ids that are not the one who speaks.
abbrev pub others : Option Text → List Text → List Text
others principal ids = filter (λ i. not (same_text (some i) principal)) ids

-- `bound`, which has no empty id.
abbrev pub bound_of : IngestResult → Option Text → List Text
bound_of r principal =
    filter (λ i. not (i == 0) && not (same_text (some i) principal)) r.bound_entity_ids

abbrev pub created_in : Option MaterializationResult → Option Text → List Text
created_in none principal = []
created_in (some m) principal = others principal m.created_entity_ids

abbrev pub reused_in : Option MaterializationResult → Option Text → List Text
reused_in none principal = []
reused_in (some m) principal = others principal m.reused_entity_ids

-- The only element.
abbrev pub only : List Text → List Text
only (i ∷ []) = i ∷ []
only _ = []

abbrev pub known_in : Option Text → List Text → List Text
known_in none bound = []
known_in (some i) bound = if not (i == 0) && is_one_of i bound then i ∷ [] else []

-- What a statement on ownership brings into focus.
abbrev pub owned_ids : List Text → List Text → List Text
owned_ids created reused = or_list (only created) (or_list (only reused) created)

module _ (lowered : Text → Message) where
  -- `_is_secondary_type`
  unfoldable pub is_secondary_type : Option Text → Bool
  unfolding suffix_of
  is_secondary_type none = false
  is_secondary_type (some t) =
      is_word
        (codes "place" ∷ codes "location" ∷ codes "store" ∷ codes "shop" ∷ codes "vendor" ∷ [])
        (suffix_of (lowered t) (lowered t))

  -- `_is_owns_key`
  unfoldable pub is_owns_key : Text → Bool
  unfolding ends_with
  is_owns_key t =
      same_codes (lowered t) (codes "relation.owns") || ends_with (codes ".owns") (lowered t)

  -- `_drop_secondary_participants`
  unfoldable pub drop_secondary_participants : List Text → Names → List Text
  unfolding is_secondary_type
  drop_secondary_participants ids types =
      if leb (length ids) 1
      then ids
      else or_list (filter (λ i. not (is_secondary_type (get ◌==◌ i types))) ids) ids

module _ (folded : Text → Text) (names : Names) (bound : List Text) where
  abbrev label : Text → Text
  label i = elim (get ◌==◌ i names) [ none ↦ folded 0 | some n ↦ folded n ]

  -- `_match_mention_to_bound`: the entity, alone, or none.
  unfoldable pub match_mention_to_bound : EntityMention → List Text
  unfolding is_one_of get
  match_mention_to_bound m =
      or_list (known_in m.known_entity_id bound)
        (if folded m.text == 0 then [] else only (filter (λ i. label i == folded m.text) bound))

  abbrev pub match_option : Option EntityMention → List Text
  match_option none = []
  match_option (some m) = match_mention_to_bound m

  -- The first participant that is one of the entities bound.
  unfoldable pub match_first : List EntityMention → List Text
  unfolding match_mention_to_bound
  match_first [] = []
  match_first (m ∷ ms) = or_list (match_mention_to_bound m) (match_first ms)

  abbrev pub match_event : Option (List EntityMention) → List Text
  match_event none = []
  match_event (some ms) = match_first ms

  -- The branch of `_ingest_focus_ids` on a relation.
  unfoldable pub match_relation :
      (Text → Message) → List Text → List Text → Option IrRelation → List Text
  unfolding match_mention_to_bound is_owns_key
  match_relation lowered created reused none = []
  match_relation lowered created reused (some r) = or_list (match_mention_to_bound r.object) (
      or_list (if is_owns_key lowered r.relation_key then owned_ids created reused else [])
        (match_mention_to_bound r.subject))

  unfoldable pub match_ir : (Text → Message) → List Text → List Text → Option IngestIr → List Text
  unfolding match_first match_relation
  match_ir lowered created reused none = []
  match_ir lowered created reused (some ir) = or_list (match_option ir.attribute) (
      or_list (match_option ir.measurement)
        (or_list (match_event ir.event) (match_relation lowered created reused ir.relation)))

-- `_ingest_focus_ids`
unfoldable pub ingest_focus_ids :
    (Text → Text)
    → (Text → Message)
    → IngestResult
    → Option Text
    → Option IngestIr
    → Names
    → Names
    → List Text
unfolding match_ir drop_secondary_participants
ingest_focus_ids folded lowered r principal ir names types =
    let bound = bound_of r principal in
    let created = created_in r.materialization principal in
    let reused = reused_in r.materialization principal in
    or_list (match_ir folded names bound lowered created reused ir)
      (drop_secondary_participants lowered (or_list created (or_list reused bound)) types)

abbrev relation_key_of : Option IngestIr → Option Text
relation_key_of none = none
relation_key_of (some ir) = elim ir.relation [ none ↦ none | some r ↦ some r.relation_key ]

abbrev clears : Option Bool → Option IngestIr → Bool
clears (some b) ir = b
clears none none = true
clears none (some ir) = elim ir.discourse_decision [
  | some DiscourseDecision.continue ↦ false
  | _ ↦ true
]

-- Whether the statement was on an attribute or a measured value.
abbrev on_value : Option IngestIr → Bool
on_value none = false
on_value (some ir) = is_some ir.attribute || is_some ir.measurement

-- What `apply_ingest_to_discourse` passes to `_commit_focus` beside the ids.
unfoldable pub ingest_commit_of : List Text → Option IngestIr → Names → Names → Option Bool → Commit
unfolding first_type
ingest_commit_of ids ir types names clear = record {
  primitive = some "ingest";
  relation_type = relation_key_of ir;
  target_type = first_type types ids;
  result_kind = some "write";
  types = types;
  names = names;
  reason = if on_value ir then some "successful_attribute_write" else some "successful_write";
  clear_pending = clears clear ir;
}

abbrev pub is_written : IngestStatus → Bool
is_written IngestStatus.committed = true
is_written IngestStatus.partial = true
is_written _ = false

module _ {Q : Type 0} (faded : ℕ → ℕ) where
  -- The end of `apply_ingest_to_discourse`, with the ids in focus.
  unfoldable pub write_or_idle :
      DiscourseState Q
      → List Text
      → Option IngestIr
      → Names
      → Names
      → Option Bool
      → DiscourseState Q
  unfolding idle commit_focus ingest_commit_of
  write_or_idle s [] ir types names clear = idle faded s
  write_or_idle s (i ∷ is) ir types names clear =
      commit_focus faded s (i ∷ is) (ingest_commit_of (i ∷ is) ir types names clear)

  module _ (folded : Text → Text) (lowered : Text → Message) where
    unfoldable pub apply_ingest_to_discourse :
        DiscourseState Q
        → IngestResult
        → Option Text
        → Names
        → Names
        → Option IngestIr
        → Option Bool
        → DiscourseState Q
    unfolding write_or_idle ingest_focus_ids idle
    apply_ingest_to_discourse s r principal types names ir clear =
        if is_written r.status
        then write_or_idle s (ingest_focus_ids folded lowered r principal ir names types) ir types
            names clear
        else idle faded s
