-- ===== src/Ontology/Registry/Visible.antt =====
-- Which concept a key names for which asker, after a registration (pke/src/pke/ontology/registry.py).
use jamesbrain.Common.{
  Text, true, false, ◌≡◌, ◌≢◌, refl, ap, ◌∙◌, Option, none, some, arith, or_else,
}
use jamesbrain.Ontology.Concept.{
  ConceptScope, OntologyConcept, is_core, is_personal, same_identity, same_identity_refl,
  scope_isolation,
}
use jamesbrain.Ontology.Registry.{
  Outcome, returned, OntologyRegistry, get_global, get_personal, get_by_key, put_for, put_owned,
  put_personal, put_extended, put_extended_at, register_in, register,
}
use jamesbrain.Ontology.Registry.Lookups.{
  same_slot-apart, with_global, with_personal, with_global_self, with_global-personal,
  with_personal_self, with_personal-other, with_personal-global,
}
use jamesbrain.Ontology.Registry.Put.{Put, register-Put}

-- What a key names for one asker, and what was registered under it.
module _ (c : OntologyConcept) (r : OntologyRegistry) where
  no_owner : scope_isolation c ≡ true → is_personal c.scope ≡ false → c.owner_user_id ≡ none
  unfolding scope_isolation
  no_owner v s = ground arith

  same :
      {d e : OntologyConcept} → ◌≡◌ {A = Outcome OntologyConcept} (returned d) (returned e) → d ≡ e
  same h = cc

  of_everyone :
      (q : OntologyRegistry)
      → scope_isolation c ≡ true
      → is_personal c.scope ≡ false
      → get_by_key q c.key c.owner_user_id ≡ get_global q c.key
  unfolding get_by_key
  of_everyone q v s = ap (get_by_key q c.key) (no_owner v s)

  of_owner :
      (q : OntologyRegistry) (owner : Text) (d : OntologyConcept)
      → c.owner_user_id ≡ some owner
      → get_personal q (owner, c.key) ≡ some d
      → get_by_key q c.key c.owner_user_id ≡ some d
  unfolding get_by_key
  of_owner q owner d o p = ap (get_by_key q c.key) o ∙ ap (λ x. or_else x (get_global q c.key)) p

  Put-found :
      (z : Outcome OntologyConcept × OntologyRegistry) (d : OntologyConcept)
      → Put c r z
      → scope_isolation c ≡ true
      → z.0 ≡ returned d
      → (get_by_key z.1 c.key c.owner_user_id ≡ some d) × (same_identity d c ≡ true)
  Put-found z d Put.refused v h = cc
  Put-found z d (Put.global_before g s i) v h = (of_everyone r v s ∙ g ∙ cc, rw (← same h) i)
  Put-found z d (Put.personal_before {owner} o s g p i) v h =
      (of_owner r owner d o (p ∙ cc), rw (← same h) i)
  Put-found z d (Put.global_new g s n) v h = (
    of_everyone (with_global c r) v s ∙ with_global_self c r ∙ cc,
    rw (← same h) (same_identity_refl c),
  )
  Put-found z d (Put.personal_new {owner} o s g p) v h = (
    of_owner (with_personal owner c r) owner d o (with_personal_self c r owner ∙ cc),
    rw (← same h) (same_identity_refl c),
  )

-- A registration that returns a concept returns the one that its key names from then on for its
-- owner, and that has the identity of the concept registered.
pub register-found :
    (c : OntologyConcept) (r : OntologyRegistry) (d : OntologyConcept)
    → scope_isolation c ≡ true
    → (register c r).0 ≡ returned d
    → (get_by_key (register c r).1 c.key c.owner_user_id ≡ some d) × (same_identity d c ≡ true)
register-found c r d v h = Put-found c r (register c r) d (register-Put c r) v h

module _ (c : OntologyConcept) (r : OntologyRegistry) where
  -- A registry in which the concept has a place already.
  again_global :
      (q : OntologyRegistry) (d : OntologyConcept)
      → c.scope ≡ ConceptScope.extended
      → get_global q c.key ≡ some d
      → is_core d.scope ≡ false
      → same_identity d c ≡ true
      → register c q ≡ (returned d, q)
  unfolding register register_in put_extended put_extended_at
  again_global q d s g n i =
      ap (λ x. register_in x c q) s ∙ ap (λ o. put_extended_at o c q) g ∙ rw (n, i) refl

  again_personal :
      (q : OntologyRegistry) (owner : Text) (d : OntologyConcept)
      → c.scope ≡ ConceptScope.personal
      → c.owner_user_id ≡ some owner
      → get_global q c.key ≡ none
      → get_personal q (owner, c.key) ≡ some d
      → same_identity d c ≡ true
      → register c q ≡ (returned d, q)
  unfolding register register_in put_personal put_for put_owned
  again_personal q owner d s o g p i =
      ap (λ x. register_in x c q) s ∙ ap (λ x. put_for x c q) o ∙ rw (g, p, i) refl

  scope-extended :
      (s : ConceptScope) (d : OntologyConcept)
      → c.scope ≡ s
      → (register_in s c r).0 ≡ returned d
      → is_personal c.scope ≡ false
      → c.scope ≡ ConceptScope.extended
  unfolding register_in
  scope-extended ConceptScope.core d e h p = cc
  scope-extended ConceptScope.extended d e h p = e
  scope-extended ConceptScope.personal d e h p = cc (ap is_personal e)

  same_identity-is_core :
      (d : OntologyConcept) (s t : ConceptScope)
      → d.scope ≡ s
      → c.scope ≡ t
      → same_identity d c ≡ true
      → t ≡ ConceptScope.extended
      → is_core d.scope ≡ false
  unfolding same_identity
  same_identity-is_core d s t e f i g = ground arith

  Put-again :
      (z : Outcome OntologyConcept × OntologyRegistry) (found : OntologyConcept)
      → Put c r z
      → (is_personal c.scope ≡ false → c.scope ≡ ConceptScope.extended)
      → z.0 ≡ returned found
      → register c z.1 ≡ z
  unfolding get_global
  Put-again z found Put.refused x h = cc
  Put-again z found (Put.global_before {d} g s i) x h =
      again_global r d (x s) g (same_identity-is_core d d.scope c.scope refl refl i (x s)) i
  Put-again z found (Put.personal_before {d} {owner} o s g p i) x h =
      again_personal r owner d s o g p i
  Put-again z found (Put.global_new g s n) x h =
      again_global (with_global c r) c (x s) (with_global_self c r) (ap is_core (x s))
        (same_identity_refl c)
  Put-again z found (Put.personal_new {owner} o s g p) x h =
      again_personal (with_personal owner c r) owner c s o g (with_personal_self c r owner)
        (same_identity_refl c)

-- A registration that succeeds can be repeated: it returns the same concept and changes nothing.
pub register-again :
    (c : OntologyConcept) (r : OntologyRegistry) (d : OntologyConcept)
    → (register c r).0 ≡ returned d
    → register c (register c r).1 ≡ register c r
unfolding register
register-again c r d h =
    Put-again c r (register c r) d (register-Put c r) (scope-extended c r c.scope d refl h) h

-- What an asker sees of a personal concept of someone else.
module _ (c : OntologyConcept) (r : OntologyRegistry) (k : Text) where
  personal-apart :
      (z : Outcome OntologyConcept × OntologyRegistry) (asker : Text)
      → Put c r z
      → c.owner_user_id ≢ some asker
      → get_personal z.1 (asker, k) ≡ get_personal r (asker, k)
  personal-apart z asker Put.refused n = refl
  personal-apart z asker (Put.global_before _ _ _) n = refl
  personal-apart z asker (Put.personal_before _ _ _ _ _) n = refl
  personal-apart z asker (Put.global_new _ _ _) n = with_global-personal c r (asker, k)
  personal-apart z asker (Put.personal_new {owner} o _ _ _) n =
      with_personal-other c r owner (asker, k)
        (same_slot-apart owner asker c.key k (λ e. n (o ∙ ap some e)))

  global-apart :
      (z : Outcome OntologyConcept × OntologyRegistry)
      → Put c r z
      → c.scope ≡ ConceptScope.personal
      → get_global z.1 k ≡ get_global r k
  global-apart z Put.refused s = refl
  global-apart z (Put.global_before _ _ _) s = refl
  global-apart z (Put.personal_before _ _ _ _ _) s = refl
  global-apart z (Put.global_new _ p _) s = cc (ap is_personal s)
  global-apart z (Put.personal_new {owner} _ _ _ _) s = with_personal-global c r owner k

  -- Registering a personal concept does not change what a key names for an asker who is not its owner,
  -- nor what it names when no asker is given.
  pub register-isolated :
      (asker : Option Text)
      → c.scope ≡ ConceptScope.personal
      → c.owner_user_id ≢ asker
      → get_by_key (register c r).1 k asker ≡ get_by_key r k asker
  unfolding get_by_key
  register-isolated none s n = global-apart (register c r) (register-Put c r) s
  register-isolated (some u) s n =
      rw
        (
          personal-apart (register c r) u (register-Put c r) n,
          global-apart (register c r) (register-Put c r) s,
        )
        refl
