-- ===== src/Discourse/Bounds.antt =====
-- That the referents of a conversation stay few and different, and that a new focus is among them
-- (pke/src/pke/application/discourse.py).
use jamesbrain.Common.{
  ℕ, zero, suc, ◌+◌, ◌≤◌, Text, Bool, false, not, ◌≡◌, inl, inr, Option, List, [], ◌∷◌, if-cases,
  Bool-cases, ◌==◌, ltb, arith, length, take, filter, All,
}
use jamesbrain.Discourse.{
  DiscourseReferent, DiscourseState, max_recent_referents, max_idle_turns, is_one_of, focus_ids,
}
use jamesbrain.Discourse.Update.{
  Names, Commit, upsert, keep_previous, add_focus, add_candidates, store_pending_query, fade, idle,
  commit_focus, reversed, previous_referent, focus_referent, candidate_referent,
}

-- The referent is of another entity.
abbrev pub IsOther : Text → DiscourseReferent → Type 0
IsOther i r = (r.entity_id == i) ≡ false

-- No entity has two referents.
abbrev pub IsDistinct : List DiscourseReferent → Type 0
IsDistinct [] = Unit
IsDistinct (r ∷ rs) = All (IsOther r.entity_id) rs × IsDistinct rs

-- At most eight referents, of different entities.
abbrev pub IsBounded : {Q : Type 0} → DiscourseState Q → Type 0
IsBounded s = (length s.recent_referents ≤ max_recent_referents) × IsDistinct s.recent_referents

module _ (p : DiscourseReferent → Bool) where
  All-filter :
      (P : DiscourseReferent → Type 0) (rs : List DiscourseReferent)
      → All P rs
      → All P (filter p rs)
  All-filter P [] a = tt
  All-filter P (r ∷ rs) (h, a) =
      if-cases (All P) (p r) _ _ (λ e. (h, All-filter P rs a)) (λ e. All-filter P rs a)

  filter-IsDistinct : (rs : List DiscourseReferent) → IsDistinct rs → IsDistinct (filter p rs)
  filter-IsDistinct [] d = tt
  filter-IsDistinct (r ∷ rs) (a, d) =
      if-cases IsDistinct (p r) _ _
        (λ e. (All-filter (IsOther r.entity_id) rs a, filter-IsDistinct rs d))
        (λ e. filter-IsDistinct rs d)

All-take :
    (P : DiscourseReferent → Type 0) (n : ℕ) (rs : List DiscourseReferent)
    → All P rs
    → All P (take n rs)
All-take P zero rs a = tt
All-take P (suc n) [] a = tt
All-take P (suc n) (r ∷ rs) (h, a) = (h, All-take P n rs a)

take-IsDistinct : (n : ℕ) (rs : List DiscourseReferent) → IsDistinct rs → IsDistinct (take n rs)
take-IsDistinct zero rs d = tt
take-IsDistinct (suc n) [] d = tt
take-IsDistinct (suc n) (r ∷ rs) (a, d) =
    (All-take (IsOther r.entity_id) n rs a, take-IsDistinct n rs d)

length-take_le : (n : ℕ) (rs : List DiscourseReferent) → length (take n rs) ≤ n
length-take_le zero rs = omega arith
length-take_le (suc n) [] = omega arith
length-take_le (suc n) (r ∷ rs) = omega (arith, length-take_le n rs)

others-apart :
    (i : Text) (rs : List DiscourseReferent)
    → All (IsOther i) (filter (λ r. not (r.entity_id == i)) rs)
others-apart i [] = tt
others-apart i (r ∷ rs) = elim (Bool-cases (r.entity_id == i)) [
  | inl e ↦ rw e (others-apart i rs)
  | inr e ↦ rw e (e, others-apart i rs)
]

upsert-IsDistinct :
    (rs : List DiscourseReferent) (r : DiscourseReferent) → IsDistinct rs → IsDistinct (upsert rs r)
unfolding upsert
upsert-IsDistinct rs r d = (others-apart r.entity_id rs, filter-IsDistinct _ rs d)

module _ {Q : Type 0} (s : DiscourseState Q) (types names : Names) where
  keep_previous-IsDistinct :
      (ids ps : List Text) (rs : List DiscourseReferent)
      → IsDistinct rs
      → IsDistinct (keep_previous s types names ids ps rs)
  unfolding keep_previous
  keep_previous-IsDistinct ids [] rs d = d
  keep_previous-IsDistinct ids (p ∷ ps) rs d = keep_previous-IsDistinct ids ps _ (
      if-cases IsDistinct (is_one_of p ids) _ _ (λ e. d)
        (λ e. upsert-IsDistinct rs (previous_referent s types names p) d))

  add_focus-IsDistinct :
      (target : Option Text) (ids : List Text) (rs : List DiscourseReferent)
      → IsDistinct rs
      → IsDistinct (add_focus s types names target ids rs)
  unfolding add_focus
  add_focus-IsDistinct target [] rs d = d
  add_focus-IsDistinct target (i ∷ is) rs d =
      add_focus-IsDistinct target is _
        (upsert-IsDistinct rs (focus_referent s types names target i) d)

  add_candidates-IsDistinct :
      (ids : List Text) (rs : List DiscourseReferent)
      → IsDistinct rs
      → IsDistinct (add_candidates s types names ids rs)
  unfolding add_candidates
  add_candidates-IsDistinct [] rs d = d
  add_candidates-IsDistinct (i ∷ is) rs d =
      add_candidates-IsDistinct is _ (upsert-IsDistinct rs (candidate_referent s types names i) d)

module _ (faded : ℕ → ℕ) where
  fade-length : (rs : List DiscourseReferent) → length (fade faded rs) ≤ length rs
  unfolding fade
  fade-length [] = omega arith
  fade-length (r ∷ rs) =
      let l = fade-length rs in
      elim (Bool-cases (ltb (faded r.salience) 200)) [
        | inl e ↦ rw e (omega (arith, l))
        | inr e ↦ rw e (omega (arith, l))
      ]

  fade-IsOther :
      (i : Text) (rs : List DiscourseReferent)
      → All (IsOther i) rs
      → All (IsOther i) (fade faded rs)
  unfolding fade
  fade-IsOther i [] a = tt
  fade-IsOther i (r ∷ rs) (h, a) =
      if-cases (All (IsOther i)) (ltb (faded r.salience) 200) _ _ (λ e. fade-IsOther i rs a)
        (λ e. (h, fade-IsOther i rs a))

  fade-IsDistinct : (rs : List DiscourseReferent) → IsDistinct rs → IsDistinct (fade faded rs)
  unfolding fade
  fade-IsDistinct [] d = tt
  fade-IsDistinct (r ∷ rs) (a, d) =
      if-cases IsDistinct (ltb (faded r.salience) 200) _ _ (λ e. fade-IsDistinct rs d)
        (λ e. (fade-IsOther r.entity_id rs a, fade-IsDistinct rs d))

  -- Every update of the discourse keeps at most eight referents, of different entities.
  pub discourse-IsBounded :
      {Q : Type 0} (s : DiscourseState Q)
      → IsBounded s
      → IsBounded (idle faded s)
        × ((ids : List Text) (c : Commit) → IsBounded (commit_focus faded s ids c))
        × ((dimension : Option Text) (dump : Q) (ids : List Text) (types names : Names)
            → IsBounded (store_pending_query s dimension dump ids types names))
  unfolding idle commit_focus store_pending_query
  discourse-IsBounded s (l, d) = (
    if-cases IsBounded (ltb max_idle_turns (s.idle_turns + 1)) _ _
        (λ e.
          (omega (arith, l, fade-length s.recent_referents), fade-IsDistinct s.recent_referents d))
        (λ e. (l, d)),
    λ ids c. (
      length-take_le max_recent_referents _,
      take-IsDistinct max_recent_referents _ (
          add_focus-IsDistinct s c.types c.names c.target_type ids _ (
            keep_previous-IsDistinct s c.types c.names ids (reversed (focus_ids s.active_focus)) _
              (fade-IsDistinct s.recent_referents d))),
    ),
    λ dimension dump ids types names. (
      length-take_le max_recent_referents _,
      take-IsDistinct max_recent_referents _ (add_candidates-IsDistinct s types names ids _ d),
    ),
  )
