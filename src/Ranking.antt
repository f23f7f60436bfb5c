-- ===== src/Ranking.antt =====
-- The ranking that pke/src/pke/query/state_resolver.py and pke/src/pke/query/relation_resolver.py
-- share: facts of an unknown time are set apart, and the others are sorted from the latest, by
-- their sort key and then their id.
pub mod Order
use jamesbrain.Common.{
  ℕ, Text, Bool, true, false, not, ◌&&◌, ◌||◌, List, [], ◌∷◌, if◌then◌else◌, ltb, leb, ◌==◌, filter,
}

-- Python's order of the tuples `(rank, text)`.
unfoldable pub key_lt : ℕ × Text → ℕ × Text → Bool
key_lt (r, t) (r', t') = ltb r r' || (r == r' && ltb t t')

unfoldable pub key_eq : ℕ × Text → ℕ × Text → Bool
key_eq (r, t) (r', t') = r == r' && t == t'

-- What is ranked, with the key of each item and its id.
module _ {A : Type 0} (key_of : A → ℕ × Text) (id_of : A → Text) where
  -- `rank[0] >= 2`
  unfoldable pub is_unknown : A → Bool
  is_unknown a = leb 2 (key_of a).0

  -- `((key, a.id) <= (key, b.id))`
  unfoldable pub ranks_le : A → A → Bool
  unfolding key_lt key_eq
  ranks_le a b =
      key_lt (key_of a) (key_of b) || (key_eq (key_of a) (key_of b) && leb (id_of a) (id_of b))

  -- A stable sort from the greatest: an item goes before its equals among the later ones.
  unfoldable pub insert_desc : A → List A → List A
  insert_desc a [] = a ∷ []
  insert_desc a (b ∷ bs) =
      let rest = insert_desc a bs in if ranks_le b a then a ∷ b ∷ bs else b ∷ rest

  -- `ranked.sort(key=..., reverse=True)`
  unfoldable pub sort_desc : List A → List A
  unfolding insert_desc
  sort_desc [] = []
  sort_desc (a ∷ rest) = insert_desc a (sort_desc rest)

  unfoldable pub ranked : List A → List A
  unfolding is_unknown sort_desc
  ranked items = sort_desc (filter (λ a. not (is_unknown a)) items)

  unfoldable pub unranked : List A → List A
  unfolding is_unknown
  unranked items = filter is_unknown items
