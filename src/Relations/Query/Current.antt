-- ===== src/Relations/Query/Current.antt =====
-- What the relation queries of pke/src/pke/query/relation_resolver.py answer.
use jamesbrain.Common.{
  Bool, true, false, ◌≡◌, ◌≢◌, ◌↔◌, ◌⊎◌, inl, inr, refl, List, [], ◌∷◌, map, none, some, Memᴰ,
  arith, All, Bool-cases, Option, Text, ◌==◌, ==_iff, both-true,
}
use jamesbrain.Temporal.Instant.{ZoneData}
use jamesbrain.Ranking.{is_unknown}
use jamesbrain.Ranking.Order.{
  mem_of_filter, mem_of_ranked, mem_of_unranked, mem-ranked, mem-unranked,
}
use jamesbrain.States.{TemporalCompleteness}
use jamesbrain.Relations.{Relation}
use jamesbrain.Relations.Metadata.{Table, is_order_insensitive}
use jamesbrain.Relations.Query.{
  RelationScope, RelationMatch, Answer, Pattern, matches_triple, end_fits, in_texts, concept_fits,
  scope_fits, filter_relations, rank_lists, rank_matches, relation_key, resolve_relation_query,
  with_completeness, yes_if_any, by_current, boolean_query,
}

-- The pattern with subject and object exchanged.
abbrev pub converse : Pattern → Pattern
converse p = record {
  subject_id = p.object_id;
  object_id = p.subject_id;
  concept_ids = p.concept_ids;
}

matches_converse :
    (learned : Table) (p : Pattern) (scope : RelationScope) (r : Relation)
    → is_order_insensitive learned r.key ≡ true
    → matches_triple learned (converse p) scope r ≡ matches_triple learned p scope r
unfolding matches_triple
matches_converse learned p scope r h = ground arith

-- Over relations that ignore order, it does not matter which of the two is asked for as subject.
pub filter_relations-converse :
    (learned : Table) (p : Pattern) (scope : RelationScope) (rs : List Relation)
    → All (λ r. is_order_insensitive learned r.key ≡ true) rs
    → filter_relations learned (converse p) scope none rs ≡ filter_relations learned p scope none rs
unfolding filter_relations
filter_relations-converse learned p scope [] h = refl
filter_relations-converse learned p scope (r ∷ rs) h =
    rw (matches_converse learned p scope r h.0)
      (cc (filter_relations-converse learned p scope rs h.1))

-- The entity asked for, if any, is at this end, or at the other one of a relation that ignores order.
abbrev IsEnd : Option Text → Text → Text → Bool → Type 0
IsEnd none this other unordered = Unit
IsEnd (some e) this other unordered = (this ≡ e) ⊎ ((unordered ≡ true) × (other ≡ e))

abbrev IsOfConcept : List Text → Text → Type 0
IsOfConcept [] concept = Unit
IsOfConcept (c ∷ cs) concept = Memᴰ concept (c ∷ cs)

abbrev IsInScope : RelationScope → Bool → Type 0
IsInScope RelationScope.current is_current = is_current ≡ true
IsInScope RelationScope.historical is_current = is_current ≡ false
IsInScope RelationScope.any is_current = Unit

-- The relation is one that was asked for.
abbrev pub IsAsked : Table → Pattern → RelationScope → Relation → Type 0
IsAsked learned p scope r =
    IsOfConcept p.concept_ids r.concept_id
    × IsInScope scope r.is_current
    × IsEnd p.subject_id r.from_id r.to_id (is_order_insensitive learned r.key)
    × IsEnd p.object_id r.to_id r.from_id (is_order_insensitive learned r.key)

end_fits-IsEnd :
    (o : Option Text) (this other : Text) (unordered : Bool)
    → end_fits o this other unordered ≡ true
    → IsEnd o this other unordered
end_fits-IsEnd none this other unordered h = tt
end_fits-IsEnd (some e) this other unordered h = elim (Bool-cases (this == e)) [
  | inl k ↦ inl ((==_iff this e).0 k)
  | inr k ↦
      let here : unordered ≡ true = ground arith in
      let there : (other == e) ≡ true = ground arith in inr (here, (==_iff other e).0 there)
]

in_texts-mem : (a : Text) (bs : List Text) → in_texts a bs ≡ true → Memᴰ a bs
in_texts-mem a [] h = cc
in_texts-mem a (b ∷ bs) h = elim (Bool-cases (a == b)) [
  | inl k ↦ Memᴰ.head ((==_iff a b).0 k)
  | inr k ↦ Memᴰ.tail (in_texts-mem a bs (ground arith))
]

concept_fits-IsOfConcept :
    (cs : List Text) (concept : Text) → concept_fits cs concept ≡ true → IsOfConcept cs concept
concept_fits-IsOfConcept [] concept h = tt
concept_fits-IsOfConcept (c ∷ cs) concept h = in_texts-mem concept (c ∷ cs) h

scope_fits-IsInScope :
    (scope : RelationScope) (now : Bool) → scope_fits scope now ≡ true → IsInScope scope now
scope_fits-IsInScope RelationScope.current now h = h
scope_fits-IsInScope RelationScope.historical now h = ground arith
scope_fits-IsInScope RelationScope.any now h = tt

matches_triple-IsAsked :
    (learned : Table) (p : Pattern) (scope : RelationScope) (r : Relation)
    → matches_triple learned p scope r ≡ true
    → IsAsked learned p scope r
unfolding matches_triple
matches_triple-IsAsked learned p scope r h =
    let (c, h') = both-true _ _ h in
    let (s, h'') = both-true _ _ h' in
    let (a, b) = both-true _ _ h'' in
    (
      concept_fits-IsOfConcept p.concept_ids r.concept_id c,
      scope_fits-IsInScope scope r.is_current s,
      end_fits-IsEnd p.subject_id r.from_id r.to_id (is_order_insensitive learned r.key) a,
      end_fits-IsEnd p.object_id r.to_id r.from_id (is_order_insensitive learned r.key) b,
    )

module _ (zd : ZoneData) where
  -- Every match in a ranking is of a relation that was ranked.
  mem_of_map :
      (c : TemporalCompleteness) (m : RelationMatch) (rs : List Relation)
      → Memᴰ m (map (with_completeness c) rs)
      → Memᴰ m.relation rs
  mem_of_map c m [] h = elim h [ ]
  mem_of_map c m (r ∷ rs) (Memᴰ.head e) = Memᴰ.head (cc)
  mem_of_map c m (r ∷ rs) (Memᴰ.tail h) = Memᴰ.tail (mem_of_map c m rs h)

  mem_of_rank_lists :
      (rs us : List Relation) (m : RelationMatch)
      → Memᴰ m (rank_lists zd rs us)
      → Memᴰ m.relation rs ⊎ Memᴰ m.relation us
  unfolding rank_lists
  mem_of_rank_lists [] [] m h = elim h [ ]
  mem_of_rank_lists [] (u ∷ []) m h = inr (mem_of_map TemporalCompleteness.partial m (u ∷ []) h)
  mem_of_rank_lists [] (u ∷ v ∷ us) m h =
      inr (mem_of_map TemporalCompleteness.indeterminate m (u ∷ v ∷ us) h)
  mem_of_rank_lists (c ∷ rest) (u ∷ us) m (Memᴰ.head e) = inl (Memᴰ.head (cc))
  mem_of_rank_lists (c ∷ rest) (u ∷ us) m (Memᴰ.tail h) =
      inr (mem_of_map TemporalCompleteness.partial m (u ∷ us) h)
  mem_of_rank_lists (c ∷ []) [] m (Memᴰ.head e) = inl (Memᴰ.head (cc))
  mem_of_rank_lists (c ∷ []) [] m (Memᴰ.tail h) = elim h [ ]
  mem_of_rank_lists (c ∷ d ∷ rest) [] m (Memᴰ.head e) = inl (Memᴰ.head (cc))
  mem_of_rank_lists (c ∷ d ∷ rest) [] m (Memᴰ.tail h) = elim h [ ]

  rank_lists-nil : (rs us : List Relation) → rank_lists zd rs us ≡ [] → (rs ≡ []) × (us ≡ [])
  unfolding rank_lists
  rank_lists-nil [] [] h = (refl, refl)
  rank_lists-nil [] (u ∷ []) h = cc
  rank_lists-nil [] (u ∷ v ∷ us) h = cc
  rank_lists-nil (c ∷ rest) (u ∷ us) h = cc
  rank_lists-nil (c ∷ []) [] h = cc
  rank_lists-nil (c ∷ d ∷ rest) [] h = cc

  mem_of_rank_matches :
      (rs : List Relation) (m : RelationMatch) → Memᴰ m (rank_matches zd rs) → Memᴰ m.relation rs
  unfolding rank_matches
  mem_of_rank_matches rs m h = elim (mem_of_rank_lists _ _ m h) [
    | inl n ↦ mem_of_ranked (relation_key zd) (λ r. r.id) m.relation rs n
    | inr n ↦ mem_of_unranked (relation_key zd) (λ r. r.id) m.relation rs n
  ]

  no_mem-nil : {A : Type 0} {xs : List A} {x : A} → xs ≡ [] → Memᴰ x xs → ⊥
  no_mem-nil e m = elim (rw e at m) [ ]

  rank_matches-ne_nil : (r : Relation) (rs : List Relation) → rank_matches zd (r ∷ rs) ≢ []
  unfolding rank_matches
  rank_matches-ne_nil r rs h =
      let (no_ranked, no_unranked) = rank_lists-nil _ _ h in
      elim (Bool-cases (is_unknown (relation_key zd) (λ x. x.id) r)) [
        | inl vague ↦
            no_mem-nil no_unranked
              (mem-unranked (relation_key zd) (λ x. x.id) r (r ∷ rs) (Memᴰ.head refl) vague)
        | inr timed ↦
            no_mem-nil no_ranked
              (mem-ranked (relation_key zd) (λ x. x.id) r (r ∷ rs) (Memᴰ.head refl) timed)
      ]

  yes_if_any-mem :
      (ms : List RelationMatch) (m : RelationMatch) → Memᴰ m (yes_if_any ms).matches → Memᴰ m ms
  yes_if_any-mem [] m h = elim h [ ]
  yes_if_any-mem (n ∷ ms) m h = h

  by_current-mem :
      (ms cs : List RelationMatch) (m : RelationMatch)
      → Memᴰ m (by_current ms cs).matches
      → Memᴰ m ms
  by_current-mem ms [] m h = yes_if_any-mem ms m h
  by_current-mem ms (c ∷ []) m h = h
  by_current-mem ms (c ∷ d ∷ cs) m h = h

  boolean_query-mem :
      (scope : RelationScope) (rs : List Relation) (m : RelationMatch)
      → Memᴰ m (boolean_query zd scope rs).matches
      → Memᴰ m.relation rs
  boolean_query-mem scope [] m h = elim h [ ]
  boolean_query-mem RelationScope.current (r ∷ rs) m h =
      mem_of_rank_matches (r ∷ rs) m (by_current-mem (rank_matches zd (r ∷ rs)) _ m h)
  boolean_query-mem RelationScope.historical (r ∷ rs) m h =
      mem_of_rank_matches (r ∷ rs) m (yes_if_any-mem (rank_matches zd (r ∷ rs)) m h)
  boolean_query-mem RelationScope.any (r ∷ rs) m h =
      mem_of_rank_matches (r ∷ rs) m (yes_if_any-mem (rank_matches zd (r ∷ rs)) m h)

  yes_if_any-no :
      (ms : List RelationMatch) → (yes_if_any ms).answer ≡ some Answer.no_answer → ms ≡ []
  yes_if_any-no [] h = refl
  yes_if_any-no (m ∷ ms) h = cc

  by_current-no :
      (ms cs : List RelationMatch) → (by_current ms cs).answer ≡ some Answer.no_answer → ms ≡ []
  by_current-no ms [] h = yes_if_any-no ms h
  by_current-no ms (c ∷ []) h = cc
  by_current-no ms (c ∷ d ∷ cs) h = cc

  boolean_query-no :
      (scope : RelationScope) (rs : List Relation)
      → (boolean_query zd scope rs).answer ≡ some Answer.no_answer
      → rs ≡ []
  boolean_query-no scope [] h = refl
  boolean_query-no RelationScope.current (r ∷ rs) h =
      absurd (rank_matches-ne_nil r rs (by_current-no (rank_matches zd (r ∷ rs)) _ h))
  boolean_query-no RelationScope.historical (r ∷ rs) h =
      absurd (rank_matches-ne_nil r rs (yes_if_any-no (rank_matches zd (r ∷ rs)) h))
  boolean_query-no RelationScope.any (r ∷ rs) h =
      absurd (rank_matches-ne_nil r rs (yes_if_any-no (rank_matches zd (r ∷ rs)) h))

  module _ (learned : Table) (p : Pattern) (scope : RelationScope) (relations : List Relation) where
    -- Every match that a query returns is of a relation among those given, of a concept asked for,
    -- current or past as the scope says, and between the entities asked for: in the order asked for,
    -- unless the relation ignores order.
    pub resolve_relation_query-mem :
        (check : Bool) (m : RelationMatch)
        → Memᴰ m (resolve_relation_query zd learned p scope check relations).matches
        → Memᴰ m.relation relations × IsAsked learned p scope m.relation
    unfolding resolve_relation_query filter_relations
    resolve_relation_query-mem check m h =
        let (k, e) =
          mem_of_filter (matches_triple learned p scope) m.relation relations (found check h) in
        (k, matches_triple-IsAsked learned p scope m.relation e)
      where
        found :
            (check : Bool)
            → Memᴰ m (resolve_relation_query zd learned p scope check relations).matches
            → Memᴰ m.relation (filter_relations learned p scope none relations)
        found true n = boolean_query-mem scope _ m n
        found false n = mem_of_rank_matches _ m n

    -- A yes-or-no query says no exactly when no relation fits.
    pub resolve_relation_query-no_iff :
        ((resolve_relation_query zd learned p scope true relations).answer ≡ some Answer.no_answer)
        ↔ (filter_relations learned p scope none relations ≡ [])
    unfolding resolve_relation_query
    resolve_relation_query-no_iff = (λ h. boolean_query-no scope _ h, λ e. rw e refl)
