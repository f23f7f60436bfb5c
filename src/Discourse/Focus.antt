-- ===== src/Discourse/Focus.antt =====
-- What an answered question leaves in focus (pke/src/pke/application/discourse.py).
use jamesbrain.Common.{
  ℕ, Text, Bool, false, ◌||◌, ◌≡◌, ◌≢◌, refl, Option, none, some, List, [], ◌∷◌, ◌++◌, if-cases,
  ◌==◌, same_text, same_text_iff, arith,
}
use jamesbrain.Discourse.{DiscourseState, is_one_of}
use jamesbrain.Discourse.Update.{Names}
use jamesbrain.Discourse.Bounds.{IsBounded, discourse-IsBounded}
use jamesbrain.Discourse.Ask.{
  AskStatus, AskResult, add_focus_id, add_focus_ids, some_ids, relation_objects, item_ids,
  ask_focus_ids, or_list, commit_of, focus_or_idle, apply_ask_to_discourse,
}

-- No id that is empty, is the one who asks, or stands in the list twice.
abbrev pub IsFocus : Option Text → List Text → Type 0
IsFocus principal [] = Unit
IsFocus principal (i ∷ is) =
    (i ≢ 0) × (some i ≢ principal) × (is_one_of i is ≡ false) × IsFocus principal is

append-IsFocus :
    (principal : Option Text) (is : List Text) (j : Text)
    → IsFocus principal is
    → j ≢ 0
    → some j ≢ principal
    → is_one_of j is ≡ false
    → IsFocus principal (is ++ (j ∷ []))
unfolding is_one_of
append-IsFocus principal [] j f z p n = (z, p, refl, tt)
append-IsFocus principal (i ∷ is) j (a, b, c, f) z p n =
    let apart : is_one_of j is ≡ false = ground arith in
    let differ : (i == j) ≡ false = ground arith in
    (a, b, last i is differ c, append-IsFocus principal is j f z p apart)
  where
    last :
        (i : Text) (is : List Text)
        → (i == j) ≡ false
        → is_one_of i is ≡ false
        → is_one_of i (is ++ (j ∷ [])) ≡ false
    last i [] d c = rw d refl
    last i (k ∷ ks) d c =
        let later : is_one_of i ks ≡ false = ground arith in
        let ih = last i ks d later in ground arith

module _ (principal : Option Text) where
  add_focus_id-IsFocus :
      (is : List Text) (o : Option Text)
      → IsFocus principal is
      → IsFocus principal (add_focus_id principal is o)
  unfolding add_focus_id
  add_focus_id-IsFocus is none f = f
  add_focus_id-IsFocus is (some j) f =
      if-cases (IsFocus principal) (j == 0 || (same_text (some j) principal || is_one_of j is)) _ _
        (λ e. f)
        (λ e.
          let new : is_one_of j is ≡ false = ground arith in
          let other : same_text (some j) principal ≡ false = ground arith in
          append-IsFocus principal is j f (ground arith)
            (λ p. cc ((same_text_iff (some j) principal).1 p)) new)

  add_focus_ids-IsFocus :
      (is : List Text) (os : List (Option Text))
      → IsFocus principal is
      → IsFocus principal (add_focus_ids principal is os)
  unfolding add_focus_ids
  add_focus_ids-IsFocus is [] f = f
  add_focus_ids-IsFocus is (o ∷ os) f =
      add_focus_ids-IsFocus (add_focus_id principal is o) os (add_focus_id-IsFocus is o f)

  or_list-IsFocus :
      (xs ys : List Text)
      → IsFocus principal xs
      → IsFocus principal ys
      → IsFocus principal (or_list xs ys)
  or_list-IsFocus [] ys f g = g
  or_list-IsFocus (x ∷ xs) ys f g = f

  -- The entities that an answer puts into focus are not empty, none is the one who asks, and none
  -- comes twice.
  pub ask_focus_ids-IsFocus : (r : AskResult) → IsFocus principal (ask_focus_ids r principal)
  unfolding ask_focus_ids
  ask_focus_ids-IsFocus r =
      let objects = add_focus_ids-IsFocus [] (relation_objects r.query_result) tt in
      let resolved = add_focus_ids-IsFocus [] (some_ids r.resolved_entity_ids) tt in
      let found = add_focus_ids-IsFocus [] (some_ids (item_ids r.query_result)) tt in
      or_list-IsFocus (add_focus_ids principal [] (relation_objects r.query_result))
        (or_list (add_focus_ids principal [] (some_ids r.resolved_entity_ids))
          (add_focus_ids principal [] (some_ids (item_ids r.query_result))))
        objects
        (or_list-IsFocus (add_focus_ids principal [] (some_ids r.resolved_entity_ids))
          (add_focus_ids principal [] (some_ids (item_ids r.query_result))) resolved found)

module _ {Q : Type 0} (faded : ℕ → ℕ) (s : DiscourseState Q) (types names : Names)
    (clear : Bool) where
  focus_or_idle-IsBounded :
      (r : AskResult) (ids : List Text)
      → IsBounded s
      → IsBounded (focus_or_idle faded s r ids types names clear)
  unfolding focus_or_idle
  focus_or_idle-IsBounded r [] b = (discourse-IsBounded faded s b).0
  focus_or_idle-IsBounded r (i ∷ is) b =
      (discourse-IsBounded faded s b).1 (i ∷ is) (commit_of r (i ∷ is) types names clear)

  -- A question, however it was answered, leaves a bounded discourse bounded.
  pub apply_ask_to_discourse-IsBounded :
      (r : AskResult) (principal : Option Text)
      → IsBounded s
      → IsBounded (apply_ask_to_discourse faded s r principal types names clear)
  unfolding apply_ask_to_discourse
  apply_ask_to_discourse-IsBounded r principal b =
      elim r.status
        as (λ x. IsBounded (elim x [
          | AskStatus.needs_clarification ↦ s
          | _ ↦ focus_or_idle faded s r (ask_focus_ids r principal) types names clear
        ])) [
          | AskStatus.needs_clarification ↦ b
          | _ ↦ focus_or_idle-IsBounded r (ask_focus_ids r principal) b
        ]
