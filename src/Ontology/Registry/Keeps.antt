-- ===== src/Ontology/Registry/Keeps.antt =====
-- What `register` of pke/src/pke/ontology/registry.py does to a registry: its outcomes, and what
-- stays as it was.
use jamesbrain.Common.{
  Text, ◌≡◌, ◌⊎◌, inl, inr, refl, ap, ◌∙◌, none, some, ◌==◌, ==_iff, Bool-cases,
}
use jamesbrain.Ontology.Concept.{ConceptScope, OntologyConcept}
use jamesbrain.Ontology.Registry.{
  OntologyError, Outcome, returned, raised, Slot, same_slot, OntologyRegistry, get_by_id,
  get_global, get_personal, put_for, put_owned, put_personal, register_in, register,
}
use jamesbrain.Ontology.Registry.Lookups.{
  text_apart, same_slot_iff, with_personal, with_global-other, with_global-other_id,
  with_global-personal, with_personal-other, with_personal-id, with_personal-other_id,
  with_personal-global,
}
use jamesbrain.Ontology.Registry.Put.{Put, register-Put}

-- What a put comes to, read off its view.
module _ (c : OntologyConcept) (r : OntologyRegistry) where
  Put-raised :
      (z : Outcome OntologyConcept × OntologyRegistry) (e : OntologyError)
      → Put c r z
      → z.0 ≡ raised e
      → z.1 ≡ r
  Put-raised z e Put.refused h = refl
  Put-raised z e (Put.global_before _ _ _) h = cc
  Put-raised z e (Put.personal_before _ _ _ _ _) h = cc
  Put-raised z e (Put.global_new _ _ _) h = cc
  Put-raised z e (Put.personal_new _ _ _ _) h = cc

  pub Put-keeps_global :
      (z : Outcome OntologyConcept × OntologyRegistry) (k : Text) (d : OntologyConcept)
      → Put c r z
      → get_global r k ≡ some d
      → get_global z.1 k ≡ some d
  Put-keeps_global z k d Put.refused h = h
  Put-keeps_global z k d (Put.global_before _ _ _) h = h
  Put-keeps_global z k d (Put.personal_before _ _ _ _ _) h = h
  Put-keeps_global z k d (Put.global_new n _ _) h =
      with_global-other c r k (λ e. cc (rw e at n)) ∙ h
  Put-keeps_global z k d (Put.personal_new {owner} _ _ _ _) h = with_personal-global c r owner k ∙ h

  Put-keeps_personal :
      (z : Outcome OntologyConcept × OntologyRegistry) (s : Slot) (d : OntologyConcept)
      → Put c r z
      → get_personal r s ≡ some d
      → get_personal z.1 s ≡ some d
  Put-keeps_personal z s d Put.refused h = h
  Put-keeps_personal z s d (Put.global_before _ _ _) h = h
  Put-keeps_personal z s d (Put.personal_before _ _ _ _ _) h = h
  Put-keeps_personal z s d (Put.global_new n _ _) h = with_global-personal c r s ∙ h
  Put-keeps_personal z s d (Put.personal_new {owner} _ _ _ n) h =
      elim (Bool-cases (same_slot (owner, c.key) s)) [
        | inl e ↦ absurd (taken ((same_slot_iff _ _).0 e))
        | inr apart ↦ with_personal-other c r owner s apart ∙ h
      ]
    where
      taken : (owner, c.key) ≡ s → ⊥
      taken e = cc (rw e at n)

  Put-by_id :
      (z : Outcome OntologyConcept × OntologyRegistry) (i : Text) (d : OntologyConcept)
      → Put c r z
      → get_by_id r i ≡ some d
      → (get_by_id z.1 i ≡ some d) ⊎ ((c.scope ≡ ConceptScope.personal) × (c.id ≡ i))
  Put-by_id z i d Put.refused h = inl h
  Put-by_id z i d (Put.global_before _ _ _) h = inl h
  Put-by_id z i d (Put.personal_before _ _ _ _ _) h = inl h
  Put-by_id z i d (Put.global_new _ _ n) h =
      inl (with_global-other_id c r i (λ e. cc (rw e at n)) ∙ h)
  Put-by_id z i d (Put.personal_new {owner} _ s _ _) h = elim (Bool-cases (c.id == i)) [
    | inl e ↦ inr (s, (==_iff _ _).0 e)
    | inr n ↦ inl (with_personal-other_id c r owner i (text_apart c.id i n) ∙ h)
  ]

-- A registration that is refused leaves the registry as it was.
pub register-raised :
    (c : OntologyConcept) (r : OntologyRegistry) (e : OntologyError)
    → (register c r).0 ≡ raised e
    → (register c r).1 ≡ r
register-raised c r e h = Put-raised c r (register c r) e (register-Put c r) h

-- No registration changes what a key names, for everyone or for one owner.
pub register-keeps :
    (c : OntologyConcept) (r : OntologyRegistry) (k : Text) (d : OntologyConcept)
    → (get_global r k ≡ some d → get_global (register c r).1 k ≡ some d)
      × ((owner : Text)
          → get_personal r (owner, k) ≡ some d
          → get_personal (register c r).1 (owner, k) ≡ some d)
register-keeps c r k d = (
  Put-keeps_global c r (register c r) k d (register-Put c r),
  λ owner. Put-keeps_personal c r (register c r) (owner, k) d (register-Put c r),
)

put_owned-new :
    (owner : Text) (c : OntologyConcept) (r : OntologyRegistry)
    → get_global r c.key ≡ none
    → get_personal r (owner, c.key) ≡ none
    → put_owned owner c r ≡ (returned c, with_personal owner c r)
unfolding put_owned
put_owned-new owner c r g p = rw (g, p) refl

register-new :
    (owner : Text) (c : OntologyConcept) (r : OntologyRegistry)
    → c.scope ≡ ConceptScope.personal
    → c.owner_user_id ≡ some owner
    → get_global r c.key ≡ none
    → get_personal r (owner, c.key) ≡ none
    → register c r ≡ (returned c, with_personal owner c r)
unfolding register register_in put_personal put_for
register-new owner c r s o g p =
    ap (λ x. register_in x c r) s ∙ ap (λ x. put_for x c r) o ∙ put_owned-new owner c r g p

-- What an id names stays, unless a personal concept with that id is registered; and a personal
-- concept that takes a free slot takes its id too, whatever the id named before.
pub register-by_id :
    (c : OntologyConcept) (r : OntologyRegistry) (i : Text) (d : OntologyConcept)
    → get_by_id r i ≡ some d
    → ((get_by_id (register c r).1 i ≡ some d) ⊎ ((c.scope ≡ ConceptScope.personal) × (c.id ≡ i)))
      × ((owner : Text)
          → c.scope ≡ ConceptScope.personal
          → c.owner_user_id ≡ some owner
          → get_global r c.key ≡ none
          → get_personal r (owner, c.key) ≡ none
          → get_by_id (register c r).1 c.id ≡ some c)
register-by_id c r i d h = (
  Put-by_id c r (register c r) i d (register-Put c r) h,
  λ owner s o g p. rw (register-new owner c r s o g p) (with_personal-id c r owner),
)
