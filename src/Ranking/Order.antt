-- ===== src/Ranking/Order.antt =====
-- The order of a ranking, and what it holds (pke/src/pke/query/state_resolver.py and relation_resolver.py).
use jamesbrain.Common.{
  ℕ, Text, Bool, true, false, not, ◌≡◌, ◌↔◌, inl, inr, List, [], ◌∷◌, All, Memᴰ, Bool-cases, arith,
  filter,
}
use jamesbrain.Ranking.{is_unknown, ranks_le, insert_desc, sort_desc, ranked, unranked}

-- Membership in a filtered list.
module _ {A : Type 0} (p : A → Bool) where
  pub mem-filter : (x : A) (xs : List A) → Memᴰ x xs → p x ≡ true → Memᴰ x (filter p xs)
  mem-filter x [] m h = elim m [ ]
  mem-filter x (y ∷ xs) (Memᴰ.head e) h = let py : p y ≡ true = rw (← e) h in rw py (Memᴰ.head e)
  mem-filter x (y ∷ xs) (Memᴰ.tail m) h = elim (Bool-cases (p y)) [
    | inl kept ↦ rw kept (Memᴰ.tail (mem-filter x xs m h))
    | inr dropped ↦ rw dropped (mem-filter x xs m h)
  ]

  pub mem_of_filter : (x : A) (xs : List A) → Memᴰ x (filter p xs) → Memᴰ x xs × (p x ≡ true)
  mem_of_filter x [] m = elim m [ ]
  mem_of_filter x (y ∷ xs) m = elim (Bool-cases (p y)) [
    | inl kept ↦ kept_case (mem_of_filter x xs) kept (rw kept at m)
    | inr dropped ↦ let (m', h) = mem_of_filter x xs (rw dropped at m) in (Memᴰ.tail m', h)
  ]
    where
      kept_case :
          (Memᴰ x (filter p xs) → Memᴰ x xs × (p x ≡ true))
          → p y ≡ true
          → Memᴰ x (y ∷ filter p xs)
          → Memᴰ x (y ∷ xs) × (p x ≡ true)
      kept_case later k (Memᴰ.head e) = (Memᴰ.head e, rw e k)
      kept_case later k (Memᴰ.tail m') = let (m'', h) = later m' in (Memᴰ.tail m'', h)

module _ {A : Type 0} (key_of : A → ℕ × Text) (id_of : A → Text) where
  ranks_le_total : (a b : A) → ranks_le key_of id_of a b ≡ false → ranks_le key_of id_of b a ≡ true
  unfolding ranks_le
  ranks_le_total a b h = ground arith

  ranks_le_trans :
      (a b c : A)
      → ranks_le key_of id_of a b ≡ true
      → ranks_le key_of id_of b c ≡ true
      → ranks_le key_of id_of a c ≡ true
  unfolding ranks_le
  ranks_le_trans a b c h k = ground arith

  -- A list sorted from the greatest.
  abbrev pub IsDescending : List A → Type 0
  IsDescending [] = Unit
  IsDescending (x ∷ xs) = All (λ y. ranks_le key_of id_of y x ≡ true) xs × IsDescending xs

  All-insert_desc :
      (a : A) (xs : List A) (b : A)
      → ranks_le key_of id_of a b ≡ true
      → All (λ y. ranks_le key_of id_of y b ≡ true) xs
      → All (λ y. ranks_le key_of id_of y b ≡ true) (insert_desc key_of id_of a xs)
  unfolding insert_desc
  All-insert_desc a [] b h k = (h, tt)
  All-insert_desc a (x ∷ xs) b h k = elim (Bool-cases (ranks_le key_of id_of x a)) [
    | inl first ↦ rw first (h, k)
    | inr later ↦ rw later (k.0, All-insert_desc a xs b h k.1)
  ]

  All-below :
      (xs : List A) (a b : A)
      → ranks_le key_of id_of a b ≡ true
      → All (λ y. ranks_le key_of id_of y a ≡ true) xs
      → All (λ y. ranks_le key_of id_of y b ≡ true) xs
  All-below [] a b h k = tt
  All-below (x ∷ xs) a b h k = (ranks_le_trans x a b k.0 h, All-below xs a b h k.1)

  insert_desc-IsDescending :
      (a : A) (xs : List A) → IsDescending xs → IsDescending (insert_desc key_of id_of a xs)
  unfolding insert_desc
  insert_desc-IsDescending a [] h = (tt, tt)
  insert_desc-IsDescending a (x ∷ xs) h = elim (Bool-cases (ranks_le key_of id_of x a)) [
    | inl first ↦ rw first ((first, All-below xs x a first h.0), h)
    | inr later ↦
        rw later
          (All-insert_desc a xs x (ranks_le_total x a later) h.0, insert_desc-IsDescending a xs h.1)
  ]

  -- The sort is a sort.
  pub sort_desc-IsDescending : (xs : List A) → IsDescending (sort_desc key_of id_of xs)
  unfolding sort_desc
  sort_desc-IsDescending [] = tt
  sort_desc-IsDescending (x ∷ xs) = insert_desc-IsDescending x _ (sort_desc-IsDescending xs)

  mem-insert_desc :
      (x a : A) (xs : List A) → Memᴰ x (a ∷ xs) → Memᴰ x (insert_desc key_of id_of a xs)
  unfolding insert_desc
  mem-insert_desc x a [] m = m
  mem-insert_desc x a (y ∷ xs) m = elim (Bool-cases (ranks_le key_of id_of y a)) [
    | inl first ↦ rw first m
    | inr later ↦ rw later (past m (mem-insert_desc x a xs))
  ]
    where
      past :
          Memᴰ x (a ∷ y ∷ xs)
          → (Memᴰ x (a ∷ xs) → Memᴰ x (insert_desc key_of id_of a xs))
          → Memᴰ x (y ∷ insert_desc key_of id_of a xs)
      past (Memᴰ.head e) ih = Memᴰ.tail (ih (Memᴰ.head e))
      past (Memᴰ.tail (Memᴰ.head e)) ih = Memᴰ.head e
      past (Memᴰ.tail (Memᴰ.tail n)) ih = Memᴰ.tail (ih (Memᴰ.tail n))

  mem_of_insert_desc :
      (x a : A) (xs : List A) → Memᴰ x (insert_desc key_of id_of a xs) → Memᴰ x (a ∷ xs)
  unfolding insert_desc
  mem_of_insert_desc x a [] m = m
  mem_of_insert_desc x a (y ∷ xs) m = elim (Bool-cases (ranks_le key_of id_of y a)) [
    | inl first ↦ rw first at m
    | inr later ↦ past (rw later at m) (mem_of_insert_desc x a xs)
  ]
    where
      swap : Memᴰ x (a ∷ xs) → Memᴰ x (a ∷ y ∷ xs)
      swap (Memᴰ.head e) = Memᴰ.head e
      swap (Memᴰ.tail n) = Memᴰ.tail (Memᴰ.tail n)

      past :
          Memᴰ x (y ∷ insert_desc key_of id_of a xs)
          → (Memᴰ x (insert_desc key_of id_of a xs) → Memᴰ x (a ∷ xs))
          → Memᴰ x (a ∷ y ∷ xs)
      past (Memᴰ.head e) ih = Memᴰ.tail (Memᴰ.head e)
      past (Memᴰ.tail n) ih = swap (ih n)

  -- The sort has the items that it was given, and no others.
  pub mem-sort_desc : (x : A) (xs : List A) → Memᴰ x xs ↔ Memᴰ x (sort_desc key_of id_of xs)
  unfolding sort_desc
  mem-sort_desc x [] = (λ m. m, λ m. m)
  mem-sort_desc x (y ∷ xs) = (
    λ m. mem-insert_desc x y _ (cons-map (mem-sort_desc x xs).0 m),
    λ m. cons-map (mem-sort_desc x xs).1 (mem_of_insert_desc x y _ m),
  )
    where
      cons-map : {ys zs : List A} → (Memᴰ x ys → Memᴰ x zs) → Memᴰ x (y ∷ ys) → Memᴰ x (y ∷ zs)
      cons-map f (Memᴰ.head e) = Memᴰ.head e
      cons-map f (Memᴰ.tail n) = Memᴰ.tail (f n)

  -- What the rankings of a list of items hold.
  pub ranked-IsDescending : (items : List A) → IsDescending (ranked key_of id_of items)
  unfolding ranked
  ranked-IsDescending items =
      sort_desc-IsDescending (filter (λ a. not (is_unknown key_of id_of a)) items)

  pub mem-ranked :
      (x : A) (items : List A)
      → Memᴰ x items
      → is_unknown key_of id_of x ≡ false
      → Memᴰ x (ranked key_of id_of items)
  unfolding ranked
  mem-ranked x items m h = (mem-sort_desc x _).0 (mem-filter _ x items m (rw h))

  pub mem_of_ranked : (x : A) (items : List A) → Memᴰ x (ranked key_of id_of items) → Memᴰ x items
  unfolding ranked
  mem_of_ranked x items m = (mem_of_filter _ x items ((mem-sort_desc x _).1 m)).0

  pub mem-unranked :
      (x : A) (items : List A)
      → Memᴰ x items
      → is_unknown key_of id_of x ≡ true
      → Memᴰ x (unranked key_of id_of items)
  unfolding unranked
  mem-unranked x items m h = mem-filter _ x items m h

  pub mem_of_unranked :
      (x : A) (items : List A) → Memᴰ x (unranked key_of id_of items) → Memᴰ x items
  unfolding unranked
  mem_of_unranked x items m = (mem_of_filter _ x items m).0
