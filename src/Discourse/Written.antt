-- ===== src/Discourse/Written.antt =====
-- What a statement leaves in focus (pke/src/pke/application/discourse.py).
use jamesbrain.Common.{
  ℕ, Text, Bool, true, false, not, ◌&&◌, ◌≡◌, ◌≢◌, ◌⊎◌, inl, inr, refl, Option, none, some, List,
  [], ◌∷◌, Memᴰ, All, ltb, ◌+◌, if-cases, Bool-cases, ◌==◌, ==_iff, leb, length, same_text,
  same_text_iff, arith, filter,
}
use jamesbrain.Interpretation.Messages.{Message}
use jamesbrain.Discourse.{DiscourseState, is_one_of, focus_ids, max_idle_turns}
use jamesbrain.Discourse.Update.{Names, idle, commit_focus}
use jamesbrain.Discourse.Ask.{or_list}
use jamesbrain.Discourse.Bounds.{IsBounded, discourse-IsBounded}
use jamesbrain.Discourse.Ingest.{
  EntityMention, IrRelation, IngestIr, MaterializationResult, IngestResult, bound_of, created_in,
  reused_in, only, known_in, owned_ids, is_owns_key, drop_secondary_participants,
  match_mention_to_bound, match_option, match_first, match_event, match_relation, match_ir,
  ingest_focus_ids, ingest_commit_of, is_written, write_or_idle, apply_ingest_to_discourse,
}

module _ (P : Text → Type 0) where
  or_list-All : (xs ys : List Text) → All P xs → All P ys → All P (or_list xs ys)
  or_list-All [] ys a b = b
  or_list-All (x ∷ xs) ys a b = a

  filter-All : (p : Text → Bool) (xs : List Text) → All P xs → All P (filter p xs)
  filter-All p [] a = tt
  filter-All p (x ∷ xs) (h, a) =
      if-cases (All P) (p x) _ _ (λ e. (h, filter-All p xs a)) (λ e. filter-All p xs a)

  only-All : (xs : List Text) → All P xs → All P (only xs)
  only-All [] a = tt
  only-All (x ∷ []) a = a
  only-All (x ∷ y ∷ xs) a = tt

  is_one_of-All : (i : Text) (xs : List Text) → is_one_of i xs ≡ true → All P xs → P i
  unfolding is_one_of
  is_one_of-All i [] e a = absurd (ground arith)
  is_one_of-All i (x ∷ xs) e (h, a) = elim (Bool-cases (i == x)) [
    | inl same ↦ rw ((==_iff i x).0 same) h
    | inr apart ↦ is_one_of-All i xs (ground arith) a
  ]

  known_in-All :
      (known : Option Text) (bound : List Text) → All P bound → All P (known_in known bound)
  known_in-All none bound a = tt
  known_in-All (some i) bound a =
      if-cases (All P) (not (i == 0) && is_one_of i bound) _ _
        (λ e. (is_one_of-All i bound (ground arith) a, tt)) (λ e. tt)

  drop-All :
      (lowered : Text → Message) (types : Names) (ids : List Text)
      → All P ids
      → All P (drop_secondary_participants lowered ids types)
  unfolding drop_secondary_participants
  drop-All lowered types ids a =
      if-cases (All P) (leb (length ids) 1) _ _ (λ e. a)
        (λ e. or_list-All _ ids (filter-All _ ids a) a)

  module _ (folded : Text → Text) (names : Names) (bound : List Text) (b : All P bound) where
    match_mention-All : (m : EntityMention) → All P (match_mention_to_bound folded names bound m)
    unfolding match_mention_to_bound
    match_mention-All m = or_list-All _ _ (known_in-All m.known_entity_id bound b) (
        if-cases (All P) (folded m.text == 0) _ _ (λ e. tt)
          (λ e. only-All _ (filter-All _ bound b)))

    match_option-All : (o : Option EntityMention) → All P (match_option folded names bound o)
    match_option-All none = tt
    match_option-All (some m) = match_mention-All m

    match_first-All : (ms : List EntityMention) → All P (match_first folded names bound ms)
    unfolding match_first
    match_first-All [] = tt
    match_first-All (m ∷ ms) = or_list-All _ _ (match_mention-All m) (match_first-All ms)

    match_event-All : (o : Option (List EntityMention)) → All P (match_event folded names bound o)
    match_event-All none = tt
    match_event-All (some ms) = match_first-All ms

    module _ (lowered : Text → Message) (created reused : List Text) (c : All P created)
        (u : All P reused) where
      owned_ids-All : All P (owned_ids created reused)
      owned_ids-All =
          or_list-All (only created) _ (only-All created c)
            (or_list-All (only reused) _ (only-All reused u) c)

      match_relation-All :
          (o : Option IrRelation)
          → All P (match_relation folded names bound lowered created reused o)
      unfolding match_relation
      match_relation-All none = tt
      match_relation-All (some r) = or_list-All _ _ (match_mention-All r.object) (
          or_list-All _ _
            (if-cases (All P) (is_owns_key lowered r.relation_key) _ _ (λ e. owned_ids-All)
              (λ e. tt))
            (match_mention-All r.subject))

      match_ir-All :
          (o : Option IngestIr) → All P (match_ir folded names bound lowered created reused o)
      unfolding match_ir
      match_ir-All none = tt
      match_ir-All (some ir) = or_list-All _ _ (match_option-All ir.attribute) (
          or_list-All _ _ (match_option-All ir.measurement)
            (or_list-All _ _ (match_event-All ir.event) (match_relation-All ir.relation)))

-- The entity is one that the result names, and not the one who speaks.
abbrev pub IsNamed : IngestResult → Option Text → Text → Type 0
IsNamed r principal i =
    (some i ≢ principal)
    × (Memᴰ i r.bound_entity_ids
        ⊎ ((m : MaterializationResult) × (r.materialization ≡ some m)
            × (Memᴰ i m.created_entity_ids ⊎ Memᴰ i m.reused_entity_ids)))

module _ (p : Text → Bool) where
  filter-from :
      (P : Text → Type 0) (xs : List Text)
      → ((i : Text) → p i ≡ true → Memᴰ i xs → P i)
      → All P (filter p xs)
  filter-from P [] f = tt
  filter-from P (x ∷ xs) f =
      let rest = filter-from P xs (λ i e h. f i e (Memᴰ.tail h)) in
      if-cases (All P) (p x) _ _ (λ e. (f x e (Memᴰ.head refl), rest)) (λ e. rest)

apart :
    (i : Text) (principal : Option Text) → same_text (some i) principal ≡ false → some i ≢ principal
apart i principal e p = cc ((same_text_iff (some i) principal).1 p)

module _ (r : IngestResult) (principal : Option Text) where
  bound_of-IsNamed : All (IsNamed r principal) (bound_of r principal)
  bound_of-IsNamed =
      filter-from (λ i. not (i == 0) && not (same_text (some i) principal)) (IsNamed r principal)
        r.bound_entity_ids (λ i e h. (apart i principal (ground arith), inl h))

  created_in-IsNamed :
      (o : Option MaterializationResult)
      → r.materialization ≡ o
      → All (IsNamed r principal) (created_in o principal)
  created_in-IsNamed none e = tt
  created_in-IsNamed (some m) e =
      filter-from (λ i. not (same_text (some i) principal)) (IsNamed r principal)
        m.created_entity_ids (λ i k h. (apart i principal (ground arith), inr (m, e, inl h)))

  reused_in-IsNamed :
      (o : Option MaterializationResult)
      → r.materialization ≡ o
      → All (IsNamed r principal) (reused_in o principal)
  reused_in-IsNamed none e = tt
  reused_in-IsNamed (some m) e =
      filter-from (λ i. not (same_text (some i) principal)) (IsNamed r principal)
        m.reused_entity_ids (λ i k h. (apart i principal (ground arith), inr (m, e, inr h)))

  -- A statement puts into focus only entities that its result names as bound, created or reused, and
  -- never the one who speaks.
  pub ingest_focus_ids-IsNamed :
      (folded : Text → Text) (lowered : Text → Message) (ir : Option IngestIr) (names types : Names)
      → All (IsNamed r principal) (ingest_focus_ids folded lowered r principal ir names types)
  unfolding ingest_focus_ids
  ingest_focus_ids-IsNamed folded lowered ir names types =
      let b = bound_of-IsNamed in
      let c = created_in-IsNamed r.materialization refl in
      let u = reused_in-IsNamed r.materialization refl in
      or_list-All (IsNamed r principal) _ _
        (match_ir-All (IsNamed r principal) folded names _ b lowered _ _ c u ir)
        (drop-All (IsNamed r principal) lowered types _
          (or_list-All (IsNamed r principal) _ _ c (or_list-All (IsNamed r principal) _ _ u b)))

All-more : (P R : Text → Type 0) (xs : List Text) → ((i : Text) → P i → R i) → All P xs → All R xs
All-more P R [] f a = tt
All-more P R (x ∷ xs) f (h, a) = (f x h, All-more P R xs f a)

All-mem : (xs : List Text) → All (λ i. Memᴰ i xs) xs
All-mem [] = tt
All-mem (x ∷ xs) = (
  Memᴰ.head refl,
  All-more (λ i. Memᴰ i xs) (λ i. Memᴰ i (x ∷ xs)) xs (λ i h. Memᴰ.tail h) (All-mem xs),
)

module _ {Q : Type 0} (faded : ℕ → ℕ) (s : DiscourseState Q) where
  idle-focus : All (λ i. Memᴰ i (focus_ids s.active_focus)) (focus_ids (idle faded s).active_focus)
  unfolding idle
  idle-focus =
      if-cases
        (λ (d : DiscourseState Q).
          All (λ i. Memᴰ i (focus_ids s.active_focus)) (focus_ids d.active_focus))
        (ltb max_idle_turns (s.idle_turns + 1)) _ _ (λ e. tt)
        (λ e. All-mem (focus_ids s.active_focus))

  module _ (ir : Option IngestIr) (types names : Names) (clear : Option Bool) where
    write_or_idle-focus :
        (P : Text → Type 0) (ids : List Text)
        → All P ids
        → All
            (λ i. P i ⊎ Memᴰ i (focus_ids s.active_focus))
            (focus_ids (write_or_idle faded s ids ir types names clear).active_focus)
    unfolding write_or_idle commit_focus
    write_or_idle-focus P [] a = All-more _ _ _ (λ i h. inr h) idle-focus
    write_or_idle-focus P (i ∷ is) a =
        All-more P (λ j. P j ⊎ Memᴰ j (focus_ids s.active_focus)) (i ∷ is) (λ j h. inl h) a

    write_or_idle-IsBounded :
        (ids : List Text) → IsBounded s → IsBounded (write_or_idle faded s ids ir types names clear)
    unfolding write_or_idle
    write_or_idle-IsBounded [] b = (discourse-IsBounded faded s b).0
    write_or_idle-IsBounded (i ∷ is) b =
        (discourse-IsBounded faded s b).1 (i ∷ is) (ingest_commit_of (i ∷ is) ir types names clear)

    module _ (folded : Text → Text) (lowered : Text → Message) (r : IngestResult)
        (principal : Option Text) where
      -- After a statement, however it ended, an entity in focus was in focus before, or is named by the
      -- result as bound, created or reused and is not the one who speaks.
      pub apply_ingest_to_discourse-focus :
          All
            (λ i. IsNamed r principal i ⊎ Memᴰ i (focus_ids s.active_focus))
            (focus_ids
              (apply_ingest_to_discourse faded folded lowered s r principal types names ir
                clear).active_focus)
      unfolding apply_ingest_to_discourse
      apply_ingest_to_discourse-focus =
          if-cases
            (λ (d : DiscourseState Q).
              All (λ i. IsNamed r principal i ⊎ Memᴰ i (focus_ids s.active_focus))
                (focus_ids d.active_focus))
            (is_written r.status) _ _
            (λ e.
              write_or_idle-focus (IsNamed r principal) _
                (ingest_focus_ids-IsNamed r principal folded lowered ir names types))
            (λ e. All-more _ _ _ (λ i h. inr h) idle-focus)

      -- A statement, however it ended, leaves a bounded discourse bounded.
      pub apply_ingest_to_discourse-IsBounded :
          IsBounded s
          → IsBounded
              (apply_ingest_to_discourse faded folded lowered s r principal types names ir clear)
      unfolding apply_ingest_to_discourse
      apply_ingest_to_discourse-IsBounded b =
          if-cases IsBounded (is_written r.status) _ _
            (λ e.
              write_or_idle-IsBounded (ingest_focus_ids folded lowered r principal ir names types)
                b)
            (λ e. (discourse-IsBounded faded s b).0)
