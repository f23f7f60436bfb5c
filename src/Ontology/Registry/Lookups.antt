-- ===== src/Ontology/Registry/Lookups.antt =====
-- How the indexes of the registry (pke/src/pke/ontology/registry.py) answer after a concept is put.
use jamesbrain.Common.{Text, true, false, ◌≡◌, ◌≢◌, ◌↔◌, refl, ap, some, arith, ◌==◌, ==_iff}
use jamesbrain.Ontology.Dict.{set, get-set_self, get-set_other}
use jamesbrain.Ontology.Concept.{OntologyConcept}
use jamesbrain.Ontology.Registry.{
  Slot, same_slot, OntologyRegistry, get_by_id, get_global, get_personal,
}

pub text_apart : (a b : Text) → (a == b) ≡ false → a ≢ b
text_apart a b n e = ground arith

pub same_slot_iff : (s t : Slot) → (same_slot s t ≡ true) ↔ (s ≡ t)
same_slot_iff (u, k) (v, j) = (
  λ h. let hu : u ≡ v = ground arith in let hk : k ≡ j = ground arith in rw (hu, hk) refl,
  λ e. let hu : u ≡ v = ap (λ s. s.0) e in let hk : k ≡ j = ap (λ s. s.1) e in ground arith,
)

pub same_slot-apart : (u v k j : Text) → u ≢ v → same_slot (u, k) (v, j) ≡ false
same_slot-apart u v k j n = ground arith

-- The registry with one concept more in the index of ids and in that of global keys.
abbrev pub with_global : OntologyConcept → OntologyRegistry → OntologyRegistry
with_global c r = record r {
  by_id = set ◌==◌ c.id c r.by_id;
  global_by_key = set ◌==◌ c.key c r.global_by_key;
}

-- The registry with one concept more in the index of ids and in a slot of an owner.
abbrev pub with_personal : Text → OntologyConcept → OntologyRegistry → OntologyRegistry
with_personal owner c r = record r {
  by_id = set ◌==◌ c.id c r.by_id;
  personal = set same_slot (owner, c.key) c r.personal;
}

module _ (c : OntologyConcept) (r : OntologyRegistry) where
  pub with_global_self : get_global (with_global c r) c.key ≡ some c
  unfolding get_global
  with_global_self = get-set_self ◌==◌ ==_iff c.key c r.global_by_key

  pub with_global-other : (k : Text) → c.key ≢ k → get_global (with_global c r) k ≡ get_global r k
  unfolding get_global
  with_global-other k n = get-set_other ◌==◌ ==_iff k c.key c r.global_by_key (ground arith)

  pub with_global-id : get_by_id (with_global c r) c.id ≡ some c
  unfolding get_by_id
  with_global-id = get-set_self ◌==◌ ==_iff c.id c r.by_id

  pub with_global-other_id : (i : Text) → c.id ≢ i → get_by_id (with_global c r) i ≡ get_by_id r i
  unfolding get_by_id
  with_global-other_id i n = get-set_other ◌==◌ ==_iff i c.id c r.by_id (ground arith)

  pub with_global-personal : (s : Slot) → get_personal (with_global c r) s ≡ get_personal r s
  unfolding get_personal
  with_global-personal s = refl

  module _ (owner : Text) where
    pub with_personal_self : get_personal (with_personal owner c r) (owner, c.key) ≡ some c
    unfolding get_personal
    with_personal_self = get-set_self same_slot same_slot_iff (owner, c.key) c r.personal

    pub with_personal-other :
        (s : Slot)
        → same_slot (owner, c.key) s ≡ false
        → get_personal (with_personal owner c r) s ≡ get_personal r s
    unfolding get_personal
    with_personal-other s n = get-set_other same_slot same_slot_iff s (owner, c.key) c r.personal n

    pub with_personal-id : get_by_id (with_personal owner c r) c.id ≡ some c
    unfolding get_by_id
    with_personal-id = get-set_self ◌==◌ ==_iff c.id c r.by_id

    pub with_personal-other_id :
        (i : Text) → c.id ≢ i → get_by_id (with_personal owner c r) i ≡ get_by_id r i
    unfolding get_by_id
    with_personal-other_id i n = get-set_other ◌==◌ ==_iff i c.id c r.by_id (ground arith)

    pub with_personal-global : (k : Text) → get_global (with_personal owner c r) k ≡ get_global r k
    unfolding get_global
    with_personal-global k = refl
