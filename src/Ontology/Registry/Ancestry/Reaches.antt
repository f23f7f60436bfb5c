-- ===== src/Ontology/Registry/Ancestry/Reaches.antt =====
-- That `is_descendant_of` of pke/src/pke/ontology/registry.py follows the parents of a concept.
use jamesbrain.Common.{
  ℕ, zero, suc, ◌<◌, ◌≤◌, Text, Bool, true, false, ◌≡◌, ◌≢◌, ◌↔◌, ◌⊎◌, inl, inr, refl, sym, ap, ◌∙◌,
  Option, none, some, List, [], ◌∷◌, ◌==◌, ==_iff, Bool-cases, arith, if◌then◌else◌, if-cases,
}
use jamesbrain.Ontology.Concept.{OntologyConcept}
use jamesbrain.Ontology.Registry.{Outcome, returned, OntologyRegistry, get_by_id}
use jamesbrain.Ontology.Registry.Lookups.{text_apart}
use jamesbrain.Ontology.Registry.Ancestry.{
  is_in, climb, climb_by, climb_to, resolve_token, of_both, descends, is_descendant_of,
  max_ancestry,
}

-- The parent of a concept, by the ids.
abbrev pub Parent : OntologyRegistry → OntologyConcept → OntologyConcept → Type 0
Parent r c d = (p : Text) × (c.parent_id ≡ some p) × (get_by_id r p ≡ some d)

-- The concept reaches the id after a number of parents, counted from 0.
pub data Reaches (r : OntologyRegistry) (target : Text) : ℕ → OntologyConcept → Type 0 where
  here : {c d : OntologyConcept} → Parent r c d → d.id ≡ target → Reaches r target 0 c
  above :
      {n : ℕ} {c d : OntologyConcept}
      → Parent r c d
      → Reaches r target n d
      → Reaches r target (suc n) c

-- The concept reaches the id for the first time after a number of parents.
data First (r : OntologyRegistry) (target : Text) : ℕ → OntologyConcept → Type 0 where
  first_here : {c d : OntologyConcept} → Parent r c d → d.id ≡ target → First r target 0 c
  first_above :
      {n : ℕ} {c d : OntologyConcept}
      → Parent r c d
      → d.id ≢ target
      → First r target n d
      → First r target (suc n) c

module _ (r : OntologyRegistry) (target : Text) where
  Parent-unique : (c d e : OntologyConcept) → Parent r c d → Parent r c e → d ≡ e
  Parent-unique c d e (p, a, b) (q, a', b') = let same : p ≡ q = cc in cc (ap (get_by_id r) same)

  First-unique : (m n : ℕ) (c : OntologyConcept) → First r target m c → First r target n c → m ≡ n
  First-unique m n c (first_here p e) (first_here q f) = refl
  First-unique m n c (first_here p e) (first_above q f h) =
      absurd (f (rw (← Parent-unique c _ _ p q) e))
  First-unique m n c (first_above p e h) (first_here q f) =
      absurd (e (rw (Parent-unique c _ _ p q) f))
  First-unique m n c (first_above {n = i} {d = d} p e h) (first_above {n = j} q f k) =
      ap suc (First-unique i j d h (rw (Parent-unique c d _ p q) k))

  -- A concept that reaches the id reaches it a first time, no later.
  Reaches-First :
      (n : ℕ) (c : OntologyConcept) → Reaches r target n c → (m : ℕ) × (m ≤ n) × First r target m c
  Reaches-First n c (Reaches.here p e) = (0, omega arith, First.first_here p e)
  Reaches-First n c (Reaches.above {n = k} {d = d} p h) = elim (Bool-cases (d.id == target)) [
    | inl e ↦ (0, omega arith, First.first_here p ((==_iff _ _).0 e))
    | inr e ↦
        let (m, le, f) = Reaches-First k d h in
        (suc m, omega (arith, le), First.first_above p (text_apart _ _ e) f)
  ]

  First-Reaches : (n : ℕ) (c : OntologyConcept) → First r target n c → Reaches r target n c
  First-Reaches n c (first_here p e) = Reaches.here p e
  First-Reaches n c (first_above {n = k} {d = d} p e h) = Reaches.above p (First-Reaches k d h)

  -- The ids seen name concepts that are not looked for and do not reach it sooner than in `n` steps.
  Behind : List Text → ℕ → Type 0
  Behind seen n =
      (p : Text) (d : OntologyConcept)
      → is_in p seen ≡ true
      → get_by_id r p ≡ some d
      → (d.id ≢ target) × ((k : ℕ) → First r target k d → n ≤ k)

  Behind-step :
      (seen : List Text) (n : ℕ) (p : Text) (d : OntologyConcept)
      → get_by_id r p ≡ some d
      → d.id ≢ target
      → First r target n d
      → Behind seen (suc n)
      → Behind (p ∷ seen) n
  unfolding Behind is_in
  Behind-step seen n p d b ne h w q e i g = elim (Bool-cases (q == p)) [
    | inl same ↦
        let f : d ≡ e = cc (sym b ∙ ap (get_by_id r) (sym ((==_iff _ _).0 same)) ∙ g) in
        (
          rw (← f) ne,
          λ k first. let u : n ≡ k = First-unique n k d h (rw f first) in omega (arith, u),
        )
    | inr n' ↦
        let (ne', later) = w q e (rw n' at i) g in
        (ne', λ k first. let l : suc n ≤ k = later k first in omega (arith, l))
  ]

  climb-step :
      (fuel : ℕ) (seen : List Text) (c d : OntologyConcept) (p : Text)
      → c.parent_id ≡ some p
      → is_in p seen ≡ false
      → get_by_id r p ≡ some d
      → climb (suc fuel) r target seen c
        ≡ (if d.id == target then true else climb fuel r target (p ∷ seen) d)
  unfolding climb climb_by climb_to
  climb-step fuel seen c d p a i b =
      ap (λ o. climb_by o r target seen (climb fuel r target)) a
      ∙ rw i (ap (λ o. climb_to o target (climb fuel r target (p ∷ seen))) b)

  -- With enough rounds left, the climb finds what is reached.
  climb_complete :
      (fuel n : ℕ) (seen : List Text) (c : OntologyConcept)
      → First r target n c
      → n < fuel
      → Behind seen n
      → climb fuel r target seen c ≡ true
  unfolding Behind
  climb_complete zero n seen c f l w = absurd (omega (arith, l))
  climb_complete (suc fuel) n seen c (first_here {d = d} (p, a, b) e) l w =
      elim (Bool-cases (is_in p seen)) [
        | inl i ↦ absurd ((w p d i b).0 e)
        | inr i ↦ climb-step fuel seen c d p a i b ∙ rw ((==_iff _ _).1 e) refl
      ]
  climb_complete (suc fuel) n seen c (first_above {n = m} {d = d} (p, a, b) ne f) l w =
      elim (Bool-cases (is_in p seen)) [
        | inl i ↦ let le : suc m ≤ m = (w p d i b).1 m f in absurd (omega (arith, le))
        | inr i ↦
            climb-step fuel seen c d p a i b
            ∙ if-cases (λ x. x ≡ true) (d.id == target) _ _ (λ e. refl)
                (λ e.
                  climb_complete fuel m (p ∷ seen) d f (omega (arith, l))
                    (Behind-step seen m p d b ne f w))
      ]

  climb_to-inv :
      (o : Option OntologyConcept) (next : OntologyConcept → Bool)
      → climb_to o target next ≡ true
      → (d : OntologyConcept) × (o ≡ some d) × ((d.id ≡ target) ⊎ (next d ≡ true))
  unfolding climb_to
  climb_to-inv none next h = cc
  climb_to-inv (some d) next h = elim (Bool-cases (d.id == target)) [
    | inl e ↦ (d, refl, inl ((==_iff _ _).0 e))
    | inr e ↦ (d, refl, inr (rw e at h))
  ]

  climb_by-inv :
      (o : Option Text) (seen : List Text) (next : List Text → OntologyConcept → Bool)
      → climb_by o r target seen next ≡ true
      → (p : Text) × (d : OntologyConcept) × (o ≡ some p)
        × (get_by_id r p ≡ some d)
        × ((d.id ≡ target) ⊎ (next (p ∷ seen) d ≡ true))
  unfolding climb_by
  climb_by-inv none seen next h = cc
  climb_by-inv (some p) seen next h = elim (Bool-cases (is_in p seen)) [
    | inl i ↦ cc (rw i at h)
    | inr i ↦
        let (d, b, t) = climb_to-inv (get_by_id r p) (next (p ∷ seen)) (rw i at h) in
        (p, d, refl, b, t)
  ]

  -- What the climb finds is reached.
  climb_sound :
      (fuel : ℕ) (seen : List Text) (c : OntologyConcept)
      → climb fuel r target seen c ≡ true
      → (n : ℕ) × (n < fuel) × Reaches r target n c
  unfolding climb
  climb_sound zero seen c h = cc
  climb_sound (suc fuel) seen c h =
      let (p, d, a, b, t) = climb_by-inv c.parent_id seen (climb fuel r target) h in
      elim t [
        | inl e ↦ (0, omega arith, Reaches.here (p, a, b) e)
        | inr k ↦
            let (n, l, f) = climb_sound fuel (p ∷ seen) d k in
            (suc n, omega (arith, l), Reaches.above (p, a, b) f)
      ]

module _ (r : OntologyRegistry) (c d : OntologyConcept) where
  descends_iff :
      (descends r c d ≡ true)
      ↔ ((c.id ≢ d.id) × ((n : ℕ) × (n < max_ancestry) × Reaches r d.id n c))
  unfolding descends Behind
  descends_iff = (below, up)
    where
      below :
          descends r c d ≡ true
          → (c.id ≢ d.id) × ((n : ℕ) × (n < max_ancestry) × Reaches r d.id n c)
      below h = elim (Bool-cases (c.id == d.id)) [
        | inl e ↦ cc (rw e at h)
        | inr e ↦ (text_apart _ _ e, climb_sound r d.id max_ancestry [] c (rw e at h))
      ]

      nothing_seen : (m : ℕ) → Behind r d.id [] m
      nothing_seen m p e i g = cc

      up :
          (c.id ≢ d.id) × ((n : ℕ) × (n < max_ancestry) × Reaches r d.id n c)
          → descends r c d ≡ true
      up (ne, (n, l, h)) =
          let (m, le, first) = Reaches-First r d.id n c h in
          let differ : (c.id == d.id) ≡ false = ground arith in
          rw differ (
            climb_complete r d.id max_ancestry m [] c first (omega (arith, l, le)) (nothing_seen m))

-- A concept descends from another one exactly when it is another concept and reaches it over its
-- parents in at most 32 steps; a cycle of parents does not hide one.
pub is_descendant_of_iff :
    (r : OntologyRegistry) (a b : Text) (c d : OntologyConcept)
    → resolve_token r a ≡ returned c
    → resolve_token r b ≡ returned d
    → (is_descendant_of r a b ≡ returned true)
      ↔ ((c.id ≢ d.id) × ((n : ℕ) × (n < max_ancestry) × Reaches r d.id n c))
unfolding is_descendant_of of_both
is_descendant_of_iff r a b c d e f =
    let (below, up) = descends_iff r c d in
    (λ h. below (same (sym value ∙ h)), λ h. value ∙ ap returned (up h))
  where
    value : is_descendant_of r a b ≡ returned (descends r c d)
    value =
        ap (λ x. of_both (descends r) x (resolve_token r b)) e
        ∙ ap (λ x. of_both (descends r) (returned c) x) f

    same :
        ◌≡◌ {A = Outcome Bool} (returned (descends r c d)) (returned true) → descends r c d ≡ true
    same h = cc
