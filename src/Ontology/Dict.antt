-- ===== src/Ontology/Dict.antt =====
-- A Python `dict`: its entries in the order in which their keys were first set.
use jamesbrain.Common.{
  Bool, true, false, ◌≡◌, ◌↔◌, inl, inr, refl, List, [], ◌∷◌, Option, none, some, if◌then◌else◌,
  Bool-cases,
}

module _ {K A : Type 0} (same : K → K → Bool) where
  -- `entries.get(key)`
  unfoldable pub get : K → List (K × A) → Option A
  get k [] = none
  get k ((j, a) ∷ d) = if same j k then some a else get k d

  -- `entries[key] = value`
  unfoldable pub set : K → A → List (K × A) → List (K × A)
  set k v [] = (k, v) ∷ []
  set k v ((j, a) ∷ d) = if same j k then (j, v) ∷ d else (j, a) ∷ set k v d

  -- The test of keys is equality.
  module _ (same_iff : (j k : K) → (same j k ≡ true) ↔ (j ≡ k)) where
    pub get-set_self : (k : K) (v : A) (d : List (K × A)) → get k (set k v d) ≡ some v
    unfolding get set
    get-set_self k v [] = rw ((same_iff k k).1 refl) refl
    get-set_self k v ((j, a) ∷ d) = elim (Bool-cases (same j k)) [
      | inl e ↦ rw e (rw e refl)
      | inr n ↦ rw n (rw n (get-set_self k v d))
    ]

    pub get-set_other :
        (i k : K) (v : A) (d : List (K × A)) → same k i ≡ false → get i (set k v d) ≡ get i d
    unfolding get set
    get-set_other i k v [] h = rw h refl
    get-set_other i k v ((j, a) ∷ d) h = elim (Bool-cases (same j k)) [
      | inl e ↦ rw e (let apart : same j i ≡ false = rw ((same_iff j k).0 e) h in rw apart refl)
      | inr n ↦ rw n (elim (Bool-cases (same j i)) [
        | inl f ↦ rw f refl
        | inr g ↦ rw g (get-set_other i k v d h)
      ])
    ]
