-- ===== src/Ontology/Registry/Indexed.antt =====
-- That the indexes of the registry hold what they say (pke/src/pke/ontology/registry.py).
use jamesbrain.Common.{
  Text, false, ◌≡◌, ◌≢◌, ◌⊎◌, inl, inr, sym, ap, ◌∙◌, Option, none, some, ◌==◌, ==_iff, Bool-cases,
  Option-cases, List, [], ◌∷◌,
}
use jamesbrain.Ontology.Concept.{ConceptScope, OntologyConcept, is_personal}
use jamesbrain.Ontology.Registry.{
  Outcome, same_slot, OntologyRegistry, get_by_id, get_global, get_personal, get_by_key, register,
  empty_registry,
}
use jamesbrain.Ontology.Registry.Lookups.{
  text_apart, same_slot_iff, with_global, with_personal, with_global_self, with_global-other,
  with_global-id, with_global-other_id, with_personal-id, with_personal-other_id,
  with_global-personal, with_personal_self, with_personal-other, with_personal-global,
}
use jamesbrain.Ontology.Dict.{get}
use jamesbrain.Ontology.Registry.Put.{Put, register-Put}

same : {d e : OntologyConcept} → some d ≡ some e → d ≡ e
same h = cc

-- A registry whose indexes hold what they say: under a key the concepts of everyone with that key,
-- in a slot the personal concepts of its owner with its key, under an id the concepts with that id.
abbrev pub IsIndexed : OntologyRegistry → Type 0
IsIndexed r =
    ((k : Text) (d : OntologyConcept)
      → get_global r k ≡ some d
      → (d.key ≡ k) × (is_personal d.scope ≡ false))
    × ((u k : Text) (d : OntologyConcept)
        → get_personal r (u, k) ≡ some d
        → (d.key ≡ k) × (d.owner_user_id ≡ some u) × (d.scope ≡ ConceptScope.personal))
    × ((i : Text) (d : OntologyConcept) → get_by_id r i ≡ some d → d.id ≡ i)

module _ (c : OntologyConcept) (r : OntologyRegistry) where
  -- The index of ids after a concept is put under its id.
  by_id-IsIndexed :
      (q : OntologyRegistry)
      → get_by_id q c.id ≡ some c
      → ((i : Text) → c.id ≢ i → get_by_id q i ≡ get_by_id r i)
      → ((i : Text) (d : OntologyConcept) → get_by_id r i ≡ some d → d.id ≡ i)
      → (i : Text) (d : OntologyConcept) → get_by_id q i ≡ some d
      → d.id ≡ i
  by_id-IsIndexed q own others before i d h = elim (Bool-cases (c.id == i)) [
    | inl e ↦
        let e' : c.id ≡ i = (==_iff _ _).0 e in
        let f : c ≡ d = same (sym own ∙ ap (get_by_id q) e' ∙ h) in rw (← f) e'
    | inr n ↦ before i d (sym (others i (text_apart c.id i n)) ∙ h)
  ]

  with_global-IsIndexed : is_personal c.scope ≡ false → IsIndexed r → IsIndexed (with_global c r)
  with_global-IsIndexed s (g, p, b) = (
    by_key,
    λ u k d h. p u k d (sym (with_global-personal c r (u, k)) ∙ h),
    by_id-IsIndexed (with_global c r) (with_global-id c r) (with_global-other_id c r) b,
  )
    where
      by_key :
          (k : Text) (d : OntologyConcept)
          → get_global (with_global c r) k ≡ some d
          → (d.key ≡ k) × (is_personal d.scope ≡ false)
      by_key k d h = elim (Bool-cases (c.key == k)) [
        | inl e ↦
            let e' : c.key ≡ k = (==_iff _ _).0 e in
            let f : c ≡ d =
              same (sym (with_global_self c r) ∙ ap (get_global (with_global c r)) e' ∙ h) in
            rw (← f) (e', s)
        | inr n ↦ g k d (sym (with_global-other c r k (text_apart c.key k n)) ∙ h)
      ]

  with_personal-IsIndexed :
      (owner : Text)
      → c.owner_user_id ≡ some owner
      → c.scope ≡ ConceptScope.personal
      → IsIndexed r
      → IsIndexed (with_personal owner c r)
  with_personal-IsIndexed owner o s (g, p, b) = (
    λ k d h. g k d (sym (with_personal-global c r owner k) ∙ h),
    by_slot,
    by_id-IsIndexed (with_personal owner c r) (with_personal-id c r owner)
        (with_personal-other_id c r owner) b,
  )
    where
      by_slot :
          (u k : Text) (d : OntologyConcept)
          → get_personal (with_personal owner c r) (u, k) ≡ some d
          → (d.key ≡ k) × (d.owner_user_id ≡ some u) × (d.scope ≡ ConceptScope.personal)
      by_slot u k d h = elim (Bool-cases (same_slot (owner, c.key) (u, k))) [
        | inl e ↦
            let same_place : (owner, c.key) ≡ (u, k) = (same_slot_iff _ _).0 e in
            let f : c ≡ d = same (
              sym (with_personal_self c r owner)
              ∙ ap (get_personal (with_personal owner c r)) same_place
              ∙ h) in
            rw (← f) (ap (λ x. x.1) same_place, o ∙ ap (λ x. some x.0) same_place, s)
        | inr n ↦ p u k d (sym (with_personal-other c r owner (u, k) n) ∙ h)
      ]

  pub Put-IsIndexed :
      (z : Outcome OntologyConcept × OntologyRegistry) → Put c r z → IsIndexed r → IsIndexed z.1
  Put-IsIndexed z Put.refused w = w
  Put-IsIndexed z (Put.global_before _ _ _) w = w
  Put-IsIndexed z (Put.personal_before _ _ _ _ _) w = w
  Put-IsIndexed z (Put.global_new _ s _) w = with_global-IsIndexed s w
  Put-IsIndexed z (Put.personal_new {owner} o s _ _) w = with_personal-IsIndexed owner o s w

-- Every registration, refused ones included, leaves all three indexes holding what they say.
pub register-IsIndexed :
    (c : OntologyConcept) (r : OntologyRegistry) → IsIndexed r → IsIndexed (register c r).1
register-IsIndexed c r w = Put-IsIndexed c r (register c r) (register-Put c r) w

pub empty_registry-IsIndexed : IsIndexed empty_registry
unfolding get_global get_personal get_by_id get
empty_registry-IsIndexed = (λ k d h. cc, λ u k d h. cc, λ i d h. cc)

-- The registry after a sequence of registrations, refused ones included.
abbrev pub register_all : List OntologyConcept → OntologyRegistry → OntologyRegistry
register_all [] r = r
register_all (c ∷ cs) r = register_all cs (register c r).1

pub register_all-IsIndexed :
    (cs : List OntologyConcept) (r : OntologyRegistry) → IsIndexed r → IsIndexed (register_all cs r)
register_all-IsIndexed [] r w = w
register_all-IsIndexed (c ∷ cs) r w =
    register_all-IsIndexed cs (register c r).1 (register-IsIndexed c r w)

-- In an indexed registry, what a key names for an asker has that key, and is of everyone or of the
-- asker.
pub get_by_key-visible :
    (r : OntologyRegistry) (k : Text) (asker : Option Text) (d : OntologyConcept)
    → IsIndexed r
    → get_by_key r k asker ≡ some d
    → (d.key ≡ k) × ((is_personal d.scope ≡ false) ⊎ ((d.owner_user_id ≡ asker)))
unfolding get_by_key
get_by_key-visible r k none d (g, p, b) h = let (e, s) = g k d h in (e, inl s)
get_by_key-visible r k (some u) d (g, p, b) h = elim (Option-cases (get_personal r (u, k))) [
  | inl n ↦ let (e, s) = g k d (rw n at h) in (e, inl s)
  | inr (d', m) ↦
      let f : d' ≡ d = same (rw m at h) in let (e, o, s) = p u k d' m in rw (← f) (e, inr o)
]
