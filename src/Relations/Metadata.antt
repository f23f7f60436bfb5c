-- ===== src/Relations/Metadata.antt =====
-- Direction, inverses and symmetry of relation concepts (pke/src/pke/ontology/relation_metadata.py).
-- The descriptive texts of the table are left out. The learned table is an argument; it holds
-- only keys with the prefix `relation.learned.`, so it never overlaps the fixed one.
pub mod Canonical
use Prim.Native.Char.{code}
use jamesbrain.Common.{
  ℕ, Text, String, Bool, true, false, ◌&&◌, ◌||◌, List, [], ◌∷◌, ◌++◌, Option, none, some,
  if◌then◌else◌, ◌==◌, ltb,
}
use jamesbrain.Relations.{Key}

abbrev pub codes : String → Key
codes String.[] = []
codes (String.◌∷◌ c s) = code c ∷ codes s

unfoldable pub key_eq : Key → Key → Bool
key_eq [] [] = true
key_eq [] (y ∷ ys) = false
key_eq (x ∷ xs) [] = false
key_eq (x ∷ xs) (y ∷ ys) = x == y && key_eq xs ys

-- `key.startswith(prefix)`
unfoldable pub starts_with : Key → Key → Bool
starts_with key [] = true
starts_with [] (p ∷ prefix) = false
starts_with (x ∷ key) (p ∷ prefix) = x == p && starts_with key prefix

last_segment_from : Key → Key → Key
last_segment_from acc [] = acc
last_segment_from acc (x ∷ xs) = last_segment_from (if x == b'.' then [] else acc ++ x ∷ []) xs

-- `key.rsplit(".", 1)[-1]`
unfoldable pub last_segment : Key → Key
unfolding last_segment_from
last_segment key = last_segment_from [] key

pub data RelationDirectionality : Type 0 where
  directed symmetric undirected : RelationDirectionality

pub record RelationConceptMetadata : Type 0 where
  pub inverse : Option Key
  pub symmetric : Bool
  pub directionality : RelationDirectionality

abbrev pub Table : Type 0
Table = List (Key × RelationConceptMetadata)

abbrev directed_to : Option Key → RelationConceptMetadata
directed_to inv = record {
  inverse = inv;
  symmetric = false;
  directionality = RelationDirectionality.directed;
}

-- `RELATION_METADATA`
abbrev pub relation_metadata : Table
relation_metadata =
    (codes "relation.employed_by", directed_to (some (codes "relation.employs")))
    ∷ (codes "relation.resides_at", directed_to none)
    ∷ (codes "relation.owns", directed_to (some (codes "relation.owned_by")))
    ∷ (codes "relation.likes", directed_to none)
    ∷ (
      codes "relation.married_to",
      record {
        inverse = none;
        symmetric = true;
        directionality = RelationDirectionality.symmetric;
      },
    )
    ∷ (codes "relation.parent_of", directed_to (some (codes "relation.child_of")))
    ∷ (codes "relation.provider_for", directed_to (some (codes "relation.client_of")))
    ∷ []

unfoldable pub find : Key → Table → Option RelationConceptMetadata
unfolding key_eq
find key [] = none
find key ((k, m) ∷ table) = if key_eq k key then some m else find key table

unfoldable pub metadata_for : Table → Key → Option RelationConceptMetadata
unfolding find
metadata_for learned key = elim (find key relation_metadata) [
  | some m ↦ some m
  | none ↦ find key learned
]

-- A dict write: an old key keeps its place.
unfoldable pub put : Key → RelationConceptMetadata → Table → Table
unfolding key_eq
put key m [] = (key, m) ∷ []
put key m ((k, n) ∷ table) = if key_eq k key then (k, m) ∷ table else (k, n) ∷ put key m table

-- `none` is the `ValueError` of a key without the prefix.
unfoldable pub register_learned_relation_metadata :
    Key → RelationConceptMetadata → Table → Option Table
unfolding starts_with put
register_learned_relation_metadata key m learned =
    if starts_with key (codes "relation.learned.") then some (put key m learned) else none

-- `_metadata_table`
unfoldable pub metadata_table : Table → Table
metadata_table learned = relation_metadata ++ learned

-- `_key_candidates`
unfoldable pub key_candidates : Key → List Key
unfolding starts_with
key_candidates key =
    if starts_with key (codes "relation.") then key ∷ [] else key ∷ (codes "relation." ++ key) ∷ []

unfoldable pub is_among : Key → List Key → Bool
unfolding key_eq
is_among key [] = false
is_among key (k ∷ ks) = key_eq key k || is_among key ks

-- The first candidate that the table has.
unfoldable pub first_in : Table → List Key → Option Key
unfolding find
first_in table [] = none
first_in table (k ∷ ks) = elim (find k table) [ some m ↦ some k | none ↦ first_in table ks ]

-- The test on one row of the loop over the table.
unfoldable pub is_inverse : List Key → Key → Option Key → Bool
unfolding is_among
is_inverse candidates suffix none = false
is_inverse candidates suffix (some []) = false
is_inverse candidates suffix (some (x ∷ xs)) =
    is_among (x ∷ xs) candidates || key_eq (last_segment (x ∷ xs)) suffix

unfoldable pub first_inverse : List Key → Key → Table → Option Key
unfolding is_inverse
first_inverse candidates suffix [] = none
first_inverse candidates suffix ((stored, m) ∷ table) =
    if is_inverse candidates suffix m.inverse
    then some stored
    else first_inverse candidates suffix table

-- The stored key, and whether the endpoints are swapped.
unfoldable pub stored_relation_query : Table → Key → Key × Bool
unfolding metadata_table key_candidates first_in first_inverse last_segment
stored_relation_query learned key = elim (first_in (metadata_table learned) (key_candidates key)) [
  | some k ↦ (k, false)
  | none ↦ elim (first_inverse (key_candidates key) (last_segment key) (metadata_table learned)) [
    | some stored ↦ (stored, true)
    | none ↦ (key, false)
  ]
]

abbrev ignores_order : RelationDirectionality → Bool
ignores_order RelationDirectionality.directed = false
ignores_order RelationDirectionality.symmetric = true
ignores_order RelationDirectionality.undirected = true

-- With no metadata the key is none of `SYMMETRIC_RELATION_KEYS`, which are keys of the fixed table.
unfoldable pub is_order_insensitive : Table → Key → Bool
unfolding metadata_for
is_order_insensitive learned key = elim (metadata_for learned key) [
  | none ↦ false
  | some m ↦ if m.symmetric then true else ignores_order m.directionality
]

unfoldable pub canonical_endpoints : Table → Text → Text → Key → Text × Text
canonical_endpoints learned subject object key =
    if is_order_insensitive learned key && ltb object subject
    then (object, subject)
    else (subject, object)

unfoldable pub canonicalize_relation_assertion : Table → Text → Text → Key → Text × Text × Key
unfolding canonical_endpoints
canonicalize_relation_assertion learned subject object key =
    let (stored, inverted) = stored_relation_query learned key in
    let ends =
      if inverted
      then canonical_endpoints learned object subject stored
      else canonical_endpoints learned subject object stored in
    (ends.0, ends.1, stored)
