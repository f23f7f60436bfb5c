-- ===== src/Relations/Metadata/Canonical.antt =====
-- The canonical form of a relation assertion (`canonicalize_relation_assertion` of
-- pke/src/pke/ontology/relation_metadata.py).
use jamesbrain.Common.{
  Text, Bool, true, false, ◌≡◌, refl, List, [], ◌∷◌, some, arith, Bool-cases, Option-cases, ◌⊎◌,
  inl, inr, is_some,
}
use jamesbrain.Relations.{Key}
use jamesbrain.Relations.Metadata.{
  codes, Table, key_eq, find, metadata_table, key_candidates, first_in, is_inverse, first_inverse,
  last_segment, stored_relation_query, is_order_insensitive, canonical_endpoints,
  canonicalize_relation_assertion, starts_with,
}

key_eq_refl : (k : Key) → key_eq k k ≡ true
unfolding key_eq
key_eq_refl [] = refl
key_eq_refl (x ∷ xs) = ground (arith, key_eq_refl xs)

-- A stored key that an inverse leads to is a key of the table.
find_of_first_inverse :
    (cs : List Key) (suffix : Key) (table : Table) (k : Key)
    → first_inverse cs suffix table ≡ some k
    → is_some (find k table) ≡ true
unfolding first_inverse find
find_of_first_inverse cs suffix [] k h = cc
find_of_first_inverse cs suffix ((s, m) ∷ table) k h =
    elim (Bool-cases (is_inverse cs suffix m.inverse)) [
      | inl found ↦ ground (arith, key_eq_refl k)
      | inr not_found ↦ ground (arith, find_of_first_inverse cs suffix table k)
    ]

find_of_first_in :
    (table : Table) (cs : List Key) (k : Key)
    → first_in table cs ≡ some k
    → is_some (find k table) ≡ true
unfolding first_in
find_of_first_in table [] k h = cc
find_of_first_in table (c ∷ cs) k h = ground (arith, find_of_first_in table cs k)

first_in_head :
    (table : Table) (k : Key) (cs : List Key)
    → is_some (find k table) ≡ true
    → first_in table (k ∷ cs) ≡ some k
unfolding first_in
first_in_head table k cs h = elim (Option-cases (find k table)) [
  | inl e ↦ cc (rw e at h)
  | inr (m, e) ↦ rw (e, first_in)
]

first_in_candidates :
    (table : Table) (k : Key)
    → is_some (find k table) ≡ true
    → first_in table (key_candidates k) ≡ some k
unfolding key_candidates
first_in_candidates table k h = elim (Bool-cases (starts_with k (codes "relation."))) [
  | inl e ↦ rw e (first_in_head table k [] h)
  | inr e ↦ rw e (first_in_head table k _ h)
]

-- A key of the table stands for itself.
stored_of_find :
    (learned : Table) (k : Key)
    → is_some (find k (metadata_table learned)) ≡ true
    → stored_relation_query learned k ≡ (k, false)
unfolding stored_relation_query
stored_of_find learned k h = rw (first_in_candidates (metadata_table learned) k h) refl

-- A stored key is a key of the table, or the key that was asked for.
stored-cases :
    (learned : Table) (key : Key)
    → ((k : Key) × (b : Bool) × (stored_relation_query learned key ≡ (k, b))
        × (is_some (find k (metadata_table learned)) ≡ true))
      ⊎ (stored_relation_query learned key ≡ (key, false))
unfolding stored_relation_query
stored-cases learned key =
    elim (Option-cases (first_in (metadata_table learned) (key_candidates key))) [
      | inr (k, e) ↦
          inl (
            k,
            false,
            rw e refl,
            find_of_first_in (metadata_table learned) (key_candidates key) k e,
          )
      | inl e ↦
          elim (Option-cases
            (first_inverse (key_candidates key) (last_segment key) (metadata_table learned))) [
              | inl e' ↦ inr (rw (e, e') refl)
              | inr (k, e') ↦ inl (
                k,
                true,
                rw (e, e') refl,
                find_of_first_inverse (key_candidates key) (last_segment key)
                    (metadata_table learned) k e',
              )
            ]
    ]

-- The stored key of a stored key is itself, unswapped.
stored_stable :
    (learned : Table) (key : Key)
    → stored_relation_query learned (stored_relation_query learned key).0
      ≡ ((stored_relation_query learned key).0, false)
stored_stable learned key = elim (stored-cases learned key) [
  | inl (k, b, e, h) ↦ rw e (stored_of_find learned k h)
  | inr e ↦ rw e e
]

-- An assertion through an inverse key is the assertion of its stored key with the ends exchanged.
pub canonicalize-inverse :
    (learned : Table) (subject object : Text) (key stored : Key)
    → stored_relation_query learned key ≡ (stored, true)
    → canonicalize_relation_assertion learned subject object key
      ≡ canonicalize_relation_assertion learned object subject stored
unfolding canonicalize_relation_assertion
canonicalize-inverse learned subject object key stored h =
    let again : stored_relation_query learned stored ≡ (stored, false) =
      rw h at (stored_stable learned key) in
    rw (h, again)

-- Where a relation ignores order, both orders of the ends have one canonical form.
pub canonicalize_comm :
    (learned : Table) (subject object : Text) (key : Key)
    → is_order_insensitive learned (stored_relation_query learned key).0 ≡ true
    → canonicalize_relation_assertion learned subject object key
      ≡ canonicalize_relation_assertion learned object subject key
unfolding canonicalize_relation_assertion
canonicalize_comm learned subject object key h = ground arith

endpoints_idem :
    (learned : Table) (a b : Text) (k : Key)
    → canonical_endpoints learned
        (canonical_endpoints learned a b k).0
        (canonical_endpoints learned a b k).1
        k
      ≡ canonical_endpoints learned a b k
unfolding canonical_endpoints
endpoints_idem learned a b k = ground arith

-- A canonical assertion is its own canonical form, whatever relations have been learned.
pub canonicalize_idem :
    (learned : Table) (subject object : Text) (key : Key)
    → let c = canonicalize_relation_assertion learned subject object key in
      canonicalize_relation_assertion learned c.0 c.1 c.2 ≡ c
unfolding canonicalize_relation_assertion
canonicalize_idem learned subject object key =
    elim (Bool-cases (stored_relation_query learned key).1) [
      | inl e ↦
          rw (stored_stable learned key, e)
            (cc (endpoints_idem learned object subject (stored_relation_query learned key).0))
      | inr e ↦
          rw (stored_stable learned key, e)
            (cc (endpoints_idem learned subject object (stored_relation_query learned key).0))
    ]
