-- ===== src/Discourse/Allowed.antt =====
-- Which entities an interpretation may bind, and that a new focus stays among the referents
-- (pke/src/pke/interpretation/discourse.py, pke/src/pke/application/discourse.py).
use jamesbrain.Common.{
  ℕ, zero, suc, ◌+◌, ◌≤◌, Text, Bool, true, false, not, ◌&&◌, ◌||◌, ◌≡◌, inl, inr, refl, sym, ap,
  ◌⊎◌, ◌↔◌, ◌∙◌, Option, some, List, [], ◌∷◌, ◌++◌, Memᴰ, if-cases, Bool-cases, ◌==◌, ==_iff, arith,
  length, take, filter,
}
use jamesbrain.Discourse.{
  DiscourseReferent, DiscourseState, max_recent_referents, is_one_of, add_id, add_ids, focus_ids,
  ids_of, candidates_of, allowed_entity_ids, allows, binding_allowed,
}
use jamesbrain.Discourse.Update.{Names, Commit, upsert, add_focus, focus_referent, commit_focus}

is_one_of-append :
    (i : Text) (xs : List Text) (j : Text)
    → is_one_of i (xs ++ (j ∷ [])) ≡ (is_one_of i xs || i == j)
unfolding is_one_of
is_one_of-append i [] j = ground arith
is_one_of-append i (x ∷ xs) j = let ih = is_one_of-append i xs j in ground arith

-- An id that is in the list already.
is_one_of_again :
    (i j : Text) (xs : List Text)
    → is_one_of j xs ≡ true
    → is_one_of i xs ≡ (is_one_of i xs || (not (i == 0) && i == j))
is_one_of_again i j xs h = elim (Bool-cases (i == j)) [
  | inl e ↦
      let f : is_one_of i xs ≡ true = ap (λ k. is_one_of k xs) ((==_iff i j).0 e) ∙ h in rw f refl
  | inr e ↦ rw e (ground arith)
]

add_id-is_one_of :
    (i j : Text) (xs : List Text)
    → is_one_of i (add_id xs j) ≡ (is_one_of i xs || (not (i == 0) && i == j))
unfolding add_id
add_id-is_one_of i j xs = elim (Bool-cases (j == 0)) [
  | inl z ↦ rw z (ground arith)
  | inr z ↦ elim (Bool-cases (is_one_of j xs)) [
    | inl h ↦ rw (z, h) (is_one_of_again i j xs h)
    | inr h ↦ rw (z, h) (is_one_of-append i xs j ∙ ground arith)
  ]
]

add_ids-is_one_of :
    (i : Text) (xs js : List Text)
    → is_one_of i (add_ids xs js) ≡ (is_one_of i xs || (not (i == 0) && is_one_of i js))
unfolding add_ids is_one_of
add_ids-is_one_of i xs [] = ground arith
add_ids-is_one_of i xs (j ∷ js) =
    let ih = add_ids-is_one_of i (add_id xs j) js in
    let step = add_id-is_one_of i j xs in ground arith

spread : (e a b c : Bool) → (((false || (e && a)) || (e && b)) || (e && c)) ≡ (e && (a || (b || c)))
spread true a b c = ground arith
spread false a b c = refl

-- The entities of the discourse are those in focus, spoken of or asked about, whatever their order,
-- and no empty id is one of them.
pub allowed_entity_ids_iff :
    {Q : Type 0} (s : DiscourseState Q) (i : Text)
    → is_one_of i (allowed_entity_ids (some s)) ≡ (
        not (i == 0)
        && (is_one_of i (focus_ids s.active_focus)
            || (is_one_of i (ids_of s.recent_referents)
                || is_one_of i (candidates_of s.pending_intent))))
unfolding allowed_entity_ids
allowed_entity_ids_iff s i =
    add_ids-is_one_of i _ (candidates_of s.pending_intent)
    ∙ ap (λ b. b || (not (i == 0) && is_one_of i (candidates_of s.pending_intent)))
        (add_ids-is_one_of i _ (ids_of s.recent_referents)
          ∙ ap (λ b. b || (not (i == 0) && is_one_of i (ids_of s.recent_referents)))
              (add_ids-is_one_of i [] (focus_ids s.active_focus)))
    ∙ spread (not (i == 0)) _ _ _

-- The entity is in focus, spoken of or asked about.
abbrev pub is_known : {Q : Type 0} → DiscourseState Q → Text → Bool
is_known s i =
    not (i == 0)
    && (is_one_of i (focus_ids s.active_focus)
        || (is_one_of i (ids_of s.recent_referents)
            || is_one_of i (candidates_of s.pending_intent)))

-- The list holds the id or nothing at all.
holds_or_empty :
    (ids : List Text) (i : Text)
    → (allows ids i ≡ true) ↔ ((is_one_of i ids ≡ true) ⊎ ((j : Text) → is_one_of j ids ≡ false))
unfolding is_one_of allows
holds_or_empty [] i = (λ h. inr (λ j. refl), λ h. refl)
holds_or_empty (a ∷ ids) i = (λ h. inl h, back)
  where
    back :
        (is_one_of i (a ∷ ids) ≡ true) ⊎ ((j : Text) → is_one_of j (a ∷ ids) ≡ false)
        → is_one_of i (a ∷ ids) ≡ true
    back (inl h) = h
    back (inr h) = let same : (a == a) ≡ true = (==_iff a a).1 refl in let no = h a in ground arith

-- An entity may be bound exactly when its id is empty, or it is in focus, spoken of or asked about,
-- or no entity is.
pub binding_allowed_iff :
    {Q : Type 0} (s : DiscourseState Q) (i : Text)
    → (binding_allowed (some s) (some i) ≡ true)
      ↔ ((i ≡ 0) ⊎ ((is_known s i ≡ true) ⊎ ((j : Text) → is_known s j ≡ false)))
unfolding binding_allowed
binding_allowed_iff s i =
    if-cases
      (λ b. (b ≡ true) ↔ ((i ≡ 0) ⊎ ((is_known s i ≡ true) ⊎ ((j : Text) → is_known s j ≡ false))))
      (i == 0) true (allows (allowed_entity_ids (some s)) i)
      (λ z. (λ h. inl ((==_iff i 0).0 z), λ h. refl)) (λ n. (to, from n))
  where
    listed : (j : Text) → is_one_of j (allowed_entity_ids (some s)) ≡ is_known s j
    listed j = allowed_entity_ids_iff s j

    to :
        allows (allowed_entity_ids (some s)) i ≡ true
        → (i ≡ 0) ⊎ ((is_known s i ≡ true) ⊎ ((j : Text) → is_known s j ≡ false))
    to h = elim ((holds_or_empty (allowed_entity_ids (some s)) i).0 h) [
      | inl k ↦ inr (inl (sym (listed i) ∙ k))
      | inr k ↦ inr (inr (λ j. sym (listed j) ∙ k j))
    ]

    from :
        (i == 0) ≡ false
        → (i ≡ 0) ⊎ ((is_known s i ≡ true) ⊎ ((j : Text) → is_known s j ≡ false))
        → allows (allowed_entity_ids (some s)) i ≡ true
    from n (inl z) = absurd (ground arith)
    from n (inr (inl k)) = (holds_or_empty (allowed_entity_ids (some s)) i).1 (inl (listed i ∙ k))
    from n (inr (inr k)) =
        (holds_or_empty (allowed_entity_ids (some s)) i).1 (inr (λ j. listed j ∙ k j))

-- A referent of the entity is among the first ones.
abbrev Near : Text → ℕ → List DiscourseReferent → Type 0
Near i n rs = (r : DiscourseReferent) × Memᴰ r (take n rs) × (r.entity_id ≡ i)

take_more :
    (r : DiscourseReferent) (m n : ℕ) (rs : List DiscourseReferent)
    → m ≤ n
    → Memᴰ r (take m rs)
    → Memᴰ r (take n rs)
take_more r zero n rs l h = elim h [ ]
take_more r (suc m) zero rs l h = absurd (omega (arith, l))
take_more r (suc m) (suc n) [] l h = elim h [ ]
take_more r (suc m) (suc n) (x ∷ rs) l (Memᴰ.head e) = Memᴰ.head e
take_more r (suc m) (suc n) (x ∷ rs) l (Memᴰ.tail h) =
    Memᴰ.tail (take_more r m n rs (omega (arith, l)) h)

mem-take-filter :
    (p : DiscourseReferent → Bool) (r : DiscourseReferent) (n : ℕ) (rs : List DiscourseReferent)
    → p r ≡ true
    → Memᴰ r (take n rs)
    → Memᴰ r (take n (filter p rs))
mem-take-filter p r zero rs k h = elim h [ ]
mem-take-filter p r (suc n) [] k h = elim h [ ]
mem-take-filter p r (suc n) (x ∷ rs) k (Memᴰ.head e) =
    let f : p x ≡ true = ap p (sym e) ∙ k in rw f (Memᴰ.head e)
mem-take-filter p r (suc n) (x ∷ rs) k (Memᴰ.tail h) =
    let ih = mem-take-filter p r n rs k h in
    if-cases (λ l. Memᴰ r (take (suc n) l)) (p x) _ _ (λ e. Memᴰ.tail ih)
      (λ e. take_more r n (suc n) (filter p rs) (omega arith) ih)

upsert-Near :
    (i : Text) (n : ℕ) (rs : List DiscourseReferent) (q : DiscourseReferent)
    → Near i n rs
    → Near i (suc n) (upsert rs q)
unfolding upsert
upsert-Near i n rs q (r, h, e) = elim (Bool-cases (r.entity_id == q.entity_id)) [
  | inl same ↦ (q, Memᴰ.head refl, sym ((==_iff _ _).0 same) ∙ e)
  | inr apart ↦ (
    r,
    Memᴰ.tail (mem-take-filter (λ x. not (x.entity_id == q.entity_id)) r n rs (rw apart refl) h),
    e,
  )
]

module _ {Q : Type 0} (s : DiscourseState Q) (types names : Names) (target : Option Text) where
  add_focus-Near :
      (i : Text) (n : ℕ) (ids : List Text) (rs : List DiscourseReferent)
      → Near i n rs
      → Near i (length ids + n) (add_focus s types names target ids rs)
  unfolding add_focus
  add_focus-Near i n [] rs h = let e : 0 + n ≡ n = omega arith in rw e h
  add_focus-Near i n (j ∷ js) rs h =
      let e : suc (length js) + n ≡ length js + suc n = omega arith in
      rw e (
        add_focus-Near i (suc n) js _
          (upsert-Near i n rs (focus_referent s types names target j) h))

  focus-Near :
      (i : Text) (ids : List Text) (rs : List DiscourseReferent)
      → Memᴰ i ids
      → Near i (length ids) (add_focus s types names target ids rs)
  unfolding add_focus upsert focus_referent
  focus-Near i [] rs h = elim h [ ]
  focus-Near i (j ∷ js) rs (Memᴰ.head e) =
      let f : suc (length js) ≡ length js + 1 = omega arith in
      rw f (add_focus-Near i 1 js _ (focus_referent s types names target j, Memᴰ.head refl, sym e))
  focus-Near i (j ∷ js) rs (Memᴰ.tail h) =
      let (r, k, e) = focus-Near i js _ h in
      (r, take_more r (length js) (suc (length js)) _ (omega arith) k, e)

-- Every entity of a new focus of at most eight is among the recent referents afterwards: older ones
-- are dropped before it.
pub commit_focus-referents :
    {Q : Type 0} (faded : ℕ → ℕ) (s : DiscourseState Q) (ids : List Text) (c : Commit) (i : Text)
    → length ids ≤ max_recent_referents
    → Memᴰ i ids
    → (r : DiscourseReferent) × Memᴰ r (commit_focus faded s ids c).recent_referents
      × (r.entity_id ≡ i)
unfolding commit_focus
commit_focus-referents faded s ids c i l h =
    let (r, k, e) = focus-Near s c.types c.names c.target_type i ids _ h in
    (r, take_more r (length ids) max_recent_referents _ l k, e)
