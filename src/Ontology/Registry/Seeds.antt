-- ===== src/Ontology/Registry/Seeds.antt =====
-- What `load_core_seeds` of pke/src/pke/ontology/registry.py leaves, and that it stays.
use jamesbrain.Common.{Text, true, false, ◌≡◌, refl, sym, ap, ◌∙◌, some, List, [], ◌∷◌, All}
use jamesbrain.Ontology.Concept.{OntologyConcept, is_personal, same_identity}
use jamesbrain.Ontology.Registry.{
  Outcome, returned, raised, OntologyRegistry, get_global, put_core, register, load_core_seeds,
  and_then, put_core,
}
use jamesbrain.Ontology.Registry.Keeps.{register-keeps}
use jamesbrain.Ontology.Registry.Indexed.{register_all}
use jamesbrain.Ontology.Registry.Put.{Put}

pub register_all-keeps :
    (cs : List OntologyConcept) (r : OntologyRegistry) (k : Text) (d : OntologyConcept)
    → get_global r k ≡ some d
    → get_global (register_all cs r) k ≡ some d
register_all-keeps [] r k d h = h
register_all-keeps (c ∷ cs) r k d h =
    register_all-keeps cs (register c r).1 k d ((register-keeps c r k d).0 h)

-- A key names, for everyone, a concept of the identity of the one given.
abbrev pub IsIn : OntologyConcept → OntologyRegistry → Type 0
IsIn c r = (d : OntologyConcept) × (get_global r c.key ≡ some d) × (same_identity d c ≡ true)

-- The seeds are concepts of the core.
abbrev pub IsSeeds : List OntologyConcept → Type 0
IsSeeds cs = All (λ c. is_personal c.scope ≡ false) cs

module _ (c : OntologyConcept) (next : OntologyRegistry → Outcome Unit × OntologyRegistry) where
  and_then-inv :
      (z : Outcome OntologyConcept × OntologyRegistry)
      → (and_then z next).0 ≡ returned tt
      → (d : OntologyConcept) × (z.0 ≡ returned d) × (and_then z next ≡ next z.1)
  unfolding and_then
  and_then-inv (returned d, r) h = (d, refl, refl)
  and_then-inv (raised e, r) h = cc

load_core_seeds-frozen :
    (cs : List OntologyConcept) (r : OntologyRegistry)
    → (load_core_seeds cs r).0 ≡ returned tt
    → (load_core_seeds cs r).1.core_frozen ≡ true
unfolding load_core_seeds
load_core_seeds-frozen [] r h = refl
load_core_seeds-frozen (c ∷ cs) r h =
    let (d, e, f) = and_then-inv c (load_core_seeds cs) (put_core c r) h in
    ap (λ z. z.1.core_frozen) f
    ∙ load_core_seeds-frozen cs (put_core c r).1 (sym (ap (λ z. z.0) f) ∙ h)
