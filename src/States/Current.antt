-- ===== src/States/Current.antt =====
-- What `resolve_current` of pke/src/pke/query/state_resolver.py promises of the state it chooses.
use jamesbrain.Common.{
  Text, Bool, true, false, ◌≡◌, ◌⊎◌, inl, inr, refl, List, [], ◌∷◌, some, Memᴰ, All, arith, ◌==◌,
  Bool-cases, ==_iff,
}
use jamesbrain.Temporal.Instant.{ZoneData}
use jamesbrain.Ranking.{key_lt, key_eq, ranks_le, is_unknown}
use jamesbrain.Ranking.Order.{
  mem_of_filter, IsDescending, ranked-IsDescending, mem-ranked, mem_of_ranked, mem-unranked,
  mem_of_unranked,
}
use jamesbrain.States.{State, TemporalCompleteness, state_key, pool_of, choose, resolve_current}
use jamesbrain.States.Times.{time_of, IsBefore, id_of_state, key_lt-IsBefore}

-- Every other state of the list has an earlier key.
abbrev LatestIn : ZoneData → State → List State → Type 0
LatestIn zd s pool =
    (x : State) → Memᴰ x pool → (x ≡ s) ⊎ (key_lt (state_key zd x) (state_key zd s) ≡ true)

module _ (zd : ZoneData) where
  abbrev id_of : State → Text
  id_of s = s.id

  choose-mem :
      (rs us : List State) (s : State) → (choose zd rs us).state ≡ some s → Memᴰ s rs ⊎ Memᴰ s us
  unfolding choose
  choose-mem [] [] s h = cc
  choose-mem [] (u ∷ []) s h = inr (Memᴰ.head (cc))
  choose-mem [] (u ∷ v ∷ us) s h = cc
  choose-mem (c ∷ rest) (u ∷ us) s h = inl (Memᴰ.head (cc))
  choose-mem (c ∷ []) [] s h = inl (Memᴰ.head (cc))
  choose-mem (c ∷ d ∷ rest) [] s h = inl (Memᴰ.head (ground arith))

  -- A complete answer leaves nothing unranked, and every other ranked state is strictly earlier.
  ranks_lt :
      (x y : State)
      → ranks_le (state_key zd) id_of x y ≡ true
      → key_eq (state_key zd y) (state_key zd x) ≡ false
      → key_lt (state_key zd x) (state_key zd y) ≡ true
  unfolding ranks_le key_lt key_eq
  ranks_lt x y h k = ground arith

  lt_of_le_lt :
      (x y z : State)
      → ranks_le (state_key zd) id_of x y ≡ true
      → key_lt (state_key zd y) (state_key zd z) ≡ true
      → key_lt (state_key zd x) (state_key zd z) ≡ true
  unfolding ranks_le key_lt
  lt_of_le_lt x y z h k = ground arith

  below-second :
      (c d x : State) (rest : List State)
      → key_lt (state_key zd d) (state_key zd c) ≡ true
      → All (λ y. ranks_le (state_key zd) id_of y d ≡ true) rest
      → Memᴰ x rest
      → key_lt (state_key zd x) (state_key zd c) ≡ true
  below-second c d x [] h a m = elim m [ ]
  below-second c d x (y ∷ rest) h a (Memᴰ.head e) = rw e (lt_of_le_lt y d c a.0 h)
  below-second c d x (y ∷ rest) h a (Memᴰ.tail m) = below-second c d x rest h a.1 m

  choose-no_tie :
      (c n : State) (rest : List State) (s : State)
      → (choose zd (c ∷ n ∷ rest) []).state ≡ some s
      → (choose zd (c ∷ n ∷ rest) []).completeness ≡ TemporalCompleteness.complete
      → (c ≡ s) × (key_eq (state_key zd c) (state_key zd n) ≡ false)
  unfolding choose
  choose-no_tie c n rest s h k = elim (Bool-cases (key_eq (state_key zd c) (state_key zd n))) [
    | inl tie ↦ absurd (tied tie)
    | inr apart ↦ (cc (rw apart at h), apart)
  ]
    where
      tied : key_eq (state_key zd c) (state_key zd n) ≡ true → ⊥
      tied e = ground arith

  choose-latest :
      (rs us : List State) (s : State)
      → IsDescending (state_key zd) id_of rs
      → (choose zd rs us).state ≡ some s
      → (choose zd rs us).completeness ≡ TemporalCompleteness.complete
      → (us ≡ []) × LatestIn zd s rs
  unfolding choose
  choose-latest [] [] s d h k = cc
  choose-latest [] (u ∷ []) s d h k = cc
  choose-latest [] (u ∷ v ∷ us) s d h k = cc
  choose-latest (c ∷ rest) (u ∷ us) s d h k = cc
  choose-latest (c ∷ []) [] s d h k = (refl, only)
    where
      only : LatestIn zd s (c ∷ [])
      only x (Memᴰ.head e) = inl (cc)
      only x (Memᴰ.tail m) = elim m [ ]
  choose-latest (c ∷ n ∷ rest) [] s d h k =
      let (same, apart) = choose-no_tie c n rest s h k in (refl, rw (← same) (latest apart))
    where
      latest : key_eq (state_key zd c) (state_key zd n) ≡ false → LatestIn zd c (c ∷ n ∷ rest)
      latest apart x (Memᴰ.head e) = inl e
      latest apart x (Memᴰ.tail (Memᴰ.head e)) = inr (rw e (ranks_lt n c d.0.0 apart))
      latest apart x (Memᴰ.tail (Memᴰ.tail m)) =
          inr (below-second c n x rest (ranks_lt n c d.0.0 apart) d.1.0 m)

module _ (zd : ZoneData) (states : List State) (dimension : Text) (only_current : Bool) where
  mem_of_pool_of :
      (s : State)
      → Memᴰ s (pool_of states dimension only_current)
      → Memᴰ s states × (s.dimension_key ≡ dimension) × (only_current ≡ true → s.is_current ≡ true)
  unfolding pool_of
  mem_of_pool_of s m = elim (Bool-cases only_current) [
    | inl e ↦
        let (m', now) = mem_of_filter (λ x. x.is_current) s _ (rw e at m) in
        let (m'', same) = mem_of_filter (λ x. x.dimension_key == dimension) s states m' in
        (m'', (==_iff _ _).0 same, λ h. now)
    | inr e ↦
        let (m', same) = mem_of_filter (λ x. x.dimension_key == dimension) s states (rw e at m) in
        (m', (==_iff _ _).0 same, λ h. cc)
  ]

  -- The state that is chosen is one of the given states, of the dimension asked for, and current
  -- where only current states were asked for.
  pub resolve_current-mem :
      (s : State)
      → (resolve_current zd states dimension only_current).state ≡ some s
      → Memᴰ s states × (s.dimension_key ≡ dimension) × (only_current ≡ true → s.is_current ≡ true)
  unfolding resolve_current
  resolve_current-mem s h = mem_of_pool_of s (elim (choose-mem zd _ _ s h) [
    | inl m ↦ mem_of_ranked (state_key zd) (λ x. x.id) s _ m
    | inr m ↦ mem_of_unranked (state_key zd) (λ x. x.id) s _ m
  ])

  -- An answer marked complete has the greatest key of the pool, and every state of the pool is of a
  -- known time.
  resolve_current-greatest :
      (s : State)
      → (resolve_current zd states dimension only_current).state ≡ some s
      → (resolve_current zd states dimension only_current).completeness
        ≡ TemporalCompleteness.complete
      → (x : State) → Memᴰ x (pool_of states dimension only_current)
      → ((x ≡ s) ⊎ (key_lt (state_key zd x) (state_key zd s) ≡ true))
        × (is_unknown (state_key zd) id_of_state x ≡ false)
  unfolding resolve_current
  resolve_current-greatest s h k x m =
      let pool = pool_of states dimension only_current in
      let (all_ranked, latest) =
        choose-latest zd _ _ s (ranked-IsDescending (state_key zd) id_of_state pool) h k in
      elim (Bool-cases (is_unknown (state_key zd) id_of_state x)) [
        | inl vague ↦
            absurd (not_nil all_ranked (mem-unranked (state_key zd) id_of_state x pool m vague))
        | inr timed ↦ (latest x (mem-ranked (state_key zd) id_of_state x pool m timed), timed)
      ]
    where
      not_nil : {xs : List State} → xs ≡ [] → Memᴰ x xs → ⊥
      not_nil e n = elim (rw e at n) [ ]

  resolve_current-timed :
      (s : State)
      → (resolve_current zd states dimension only_current).state ≡ some s
      → (resolve_current zd states dimension only_current).completeness
        ≡ TemporalCompleteness.complete
      → is_unknown (state_key zd) id_of_state s ≡ false
  unfolding resolve_current
  resolve_current-timed s h k = (resolve_current-greatest s h k s (in_pool s h)).1
    where
      in_pool :
          (s : State)
          → (resolve_current zd states dimension only_current).state ≡ some s
          → Memᴰ s (pool_of states dimension only_current)
      in_pool s h = elim (choose-mem zd _ _ s h) [
        | inl m ↦ mem_of_ranked (state_key zd) id_of_state s _ m
        | inr m ↦ mem_of_unranked (state_key zd) id_of_state s _ m
      ]

  -- An answer marked complete is the latest, as far as the order of the keys goes by time: every other
  -- state of the pool has a known time, an earlier instant where the two instants are told at one offset
  -- (within a day of UTC), an earlier first day where both have only days, and an instant where the
  -- answer has one.
  pub resolve_current-latest :
      (s : State)
      → (resolve_current zd states dimension only_current).state ≡ some s
      → (resolve_current zd states dimension only_current).completeness
        ≡ TemporalCompleteness.complete
      → (x : State) → Memᴰ x (pool_of states dimension only_current)
      → (x ≡ s) ⊎ IsBefore (time_of zd x.temporal) (time_of zd s.temporal)
  resolve_current-latest s h k x m =
      let (best, known) = resolve_current-greatest s h k x m in
      elim best [
        | inl e ↦ inl e
        | inr l ↦ inr (key_lt-IsBefore zd x s known (resolve_current-timed s h k) l)
      ]
