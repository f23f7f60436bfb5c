-- ===== src/Ontology/Registry/Put.antt =====
-- The ways in which putting a concept into the registry of pke/src/pke/ontology/registry.py ends.
use jamesbrain.Common.{
  Text, true, false, ◌≡◌, inl, inr, refl, ap, Option, none, some, Bool-cases, Option-cases,
  if-cases,
}
use jamesbrain.Ontology.Concept.{ConceptScope, OntologyConcept, is_core, is_personal, same_identity}
use jamesbrain.Ontology.Registry.{
  OntologyError, Outcome, returned, raised, OntologyRegistry, get_by_id, get_global, get_personal,
  index_global, put_core, put_core_at, put_extended_at, put_extended, put_owned, put_for,
  put_personal, register_in, register,
}
use jamesbrain.Ontology.Registry.Lookups.{with_global, with_personal}

-- What putting a concept comes to: it is refused, it was there, or it is new to one of the indexes.
pub data Put (c : OntologyConcept) (r : OntologyRegistry)
    : Outcome OntologyConcept × OntologyRegistry → Type 0 where
  refused : {e : OntologyError} → Put c r (raised e, r)
  global_before :
      {d : OntologyConcept}
      → get_global r c.key ≡ some d
      → is_personal c.scope ≡ false
      → same_identity d c ≡ true
      → Put c r (returned d, r)
  personal_before :
      {d : OntologyConcept} {owner : Text}
      → c.owner_user_id ≡ some owner
      → c.scope ≡ ConceptScope.personal
      → get_global r c.key ≡ none
      → get_personal r (owner, c.key) ≡ some d
      → same_identity d c ≡ true
      → Put c r (returned d, r)
  global_new :
      get_global r c.key ≡ none
      → is_personal c.scope ≡ false
      → get_by_id r c.id ≡ none
      → Put c r (returned c, with_global c r)
  personal_new :
      {owner : Text}
      → c.owner_user_id ≡ some owner
      → c.scope ≡ ConceptScope.personal
      → get_global r c.key ≡ none
      → get_personal r (owner, c.key) ≡ none
      → Put c r (returned c, with_personal owner c r)

module _ (c : OntologyConcept) (r : OntologyRegistry) where
  index_global-Put :
      get_global r c.key ≡ none → is_personal c.scope ≡ false → Put c r (index_global c r)
  unfolding index_global
  index_global-Put n s = elim (Option-cases (get_by_id r c.id)) [
    | inl e ↦ rw e (Put.global_new n s e)
    | inr (d, e) ↦ rw e Put.refused
  ]

  put_core_at-Put :
      (o : Option OntologyConcept)
      → get_global r c.key ≡ o
      → is_personal c.scope ≡ false
      → Put c r (put_core_at o c r)
  unfolding put_core_at
  put_core_at-Put none e s =
      if-cases (Put c r) r.core_frozen _ _ (λ f. Put.refused) (λ f. index_global-Put e s)
  put_core_at-Put (some d) e s =
      if-cases (Put c r) (same_identity d c) _ _ (Put.global_before e s) (λ f. Put.refused)

  pub put_core-Put : is_personal c.scope ≡ false → Put c r (put_core c r)
  unfolding put_core
  put_core-Put s = put_core_at-Put (get_global r c.key) refl s

  put_extended_at-Put :
      (o : Option OntologyConcept)
      → get_global r c.key ≡ o
      → is_personal c.scope ≡ false
      → Put c r (put_extended_at o c r)
  unfolding put_extended_at
  put_extended_at-Put none e s = index_global-Put e s
  put_extended_at-Put (some d) e s =
      if-cases (Put c r) (is_core d.scope) _ _ (λ f. Put.refused)
        (λ f. if-cases (Put c r) (same_identity d c) _ _ (Put.global_before e s) (λ g. Put.refused))

  put_owned-Put :
      (owner : Text)
      → c.owner_user_id ≡ some owner
      → c.scope ≡ ConceptScope.personal
      → Put c r (put_owned owner c r)
  unfolding put_owned
  put_owned-Put owner o s = elim (Option-cases (get_global r c.key)) [
    | inr (d, e) ↦ rw e Put.refused
    | inl e ↦ rw e (elim (Option-cases (get_personal r (owner, c.key))) [
      | inl f ↦ rw f (Put.personal_new o s e f)
      | inr (d, f) ↦ rw f (elim (Bool-cases (same_identity d c)) [
        | inl g ↦ rw g (Put.personal_before o s e f g)
        | inr g ↦ rw g Put.refused
      ])
    ])
  ]

  put_for-Put :
      (o : Option Text)
      → c.owner_user_id ≡ o
      → c.scope ≡ ConceptScope.personal
      → Put c r (put_for o c r)
  unfolding put_for
  put_for-Put none e s = Put.refused
  put_for-Put (some owner) e s = put_owned-Put owner e s

  register_in-Put : (s : ConceptScope) → c.scope ≡ s → Put c r (register_in s c r)
  unfolding register_in put_personal put_extended
  register_in-Put ConceptScope.core e = Put.refused
  register_in-Put ConceptScope.personal e = put_for-Put c.owner_user_id refl e
  register_in-Put ConceptScope.extended e =
      put_extended_at-Put (get_global r c.key) refl (ap is_personal e)

  pub register-Put : Put c r (register c r)
  unfolding register
  register-Put = register_in-Put c.scope refl
