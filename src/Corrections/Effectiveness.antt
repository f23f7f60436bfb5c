-- ===== src/Corrections/Effectiveness.antt =====
-- What the resolver of pke/src/pke/query/effectiveness.py decides, and what it keeps.
use mathlib.Core.List.{append_assoc, append-nil}
use jamesbrain.Common.{
  Text, Bool, true, false, ◌≡◌, ◌≢◌, sym, ◌↔◌, ◌⊎◌, inl, inr, refl, List, [], ◌∷◌, ◌++◌, none, some,
  Memᴰ, All, arith, is_some, Bool-cases, Option-cases, filter, if◌then◌else◌,
}
use jamesbrain.Corrections.{
  KnowledgePrimitiveKind, AssertionEffectiveness, KnowledgeReference, Correction, IdentityKey,
  identity_key, same_key, validate, Incoming, Resolver, put, find, index, from_corrections, in_keys,
  resolve, explain, add_by, reference_of, filter_from, filter_effective,
}

same_key_iff : (a b : IdentityKey) → (same_key a b ≡ true) ↔ (a ≡ b)
unfolding same_key
same_key_iff a b = (λ h. ground arith, λ e. ground arith)

-- A write is found, and nothing else changes.
find-put :
    (k j : IdentityKey) (c : Correction) (t : Incoming)
    → find j (put k c t) ≡ (if same_key k j then some c else find j t)
unfolding find put same_key
find-put k j c [] = refl
find-put k j c ((i, d) ∷ t) = ground (arith, find-put k j c t)

-- What an index finds comes from the list that was indexed, or from before.
find-index :
    (k : IdentityKey) (cs : List Correction) (t : Incoming) (c : Correction)
    → find k (index t cs) ≡ some c
    → (Memᴰ c cs × (identity_key c.target ≡ k)) ⊎ (find k t ≡ some c)
unfolding index
find-index k [] t c h = inr h
find-index k (d ∷ cs) t c h = elim (find-index k cs (put (identity_key d.target) d t) c h) [
  | inl (m, e) ↦ inl (Memᴰ.tail m, e)
  | inr old ↦ here (rw (find-put (identity_key d.target) k d t) at old)
]
  where
    here :
        (if same_key (identity_key d.target) k then some d else find k t) ≡ some c
        → (Memᴰ c (d ∷ cs) × (identity_key c.target ≡ k)) ⊎ (find k t ≡ some c)
    here e = elim (Bool-cases (same_key (identity_key d.target) k)) [
      | inl same ↦
          let e' : d ≡ c = cc (rw same at e) in
          inl (Memᴰ.head (sym e'), rw (← e') ((same_key_iff _ _).0 same))
      | inr other ↦ inr (rw other at e)
    ]

-- A correction in the list, or an entry from before, is found, if not hidden by a later one.
index-finds :
    (k : IdentityKey) (cs : List Correction) (t : Incoming)
    → (is_some (find k t) ≡ true) ⊎ ((c : Correction) × Memᴰ c cs × (identity_key c.target ≡ k))
    → is_some (find k (index t cs)) ≡ true
unfolding index
index-finds k [] t (inl h) = h
index-finds k [] t (inr (c, m, e)) = elim m [ ]
index-finds k (d ∷ cs) t h =
    index-finds k cs (put (identity_key d.target) d t)
      (elim (Bool-cases (same_key (identity_key d.target) k)) [
        | inl same ↦ inl (rw (find-put, same) refl)
        | inr other ↦ elim h [
          | inl old ↦ inl (rw (find-put, other) old)
          | inr (c, m, e) ↦ later other c m e
        ]
      ])
  where
    later :
        same_key (identity_key d.target) k ≡ false
        → (c : Correction) → Memᴰ c (d ∷ cs)
        → identity_key c.target ≡ k
        → (is_some (find k (put (identity_key d.target) d t)) ≡ true)
          ⊎ ((c : Correction) × Memᴰ c cs × (identity_key c.target ≡ k))
    later other c (Memᴰ.head e) same = absurd (clash (rw e at same))
      where
        clash : identity_key d.target ≡ k → ⊥
        clash q = cc ((same_key_iff (identity_key d.target) k).1 q)
    later other c (Memᴰ.tail m) same = inr (c, m, same)

resolve-split :
    (r : Resolver) (ref : KnowledgeReference)
    → (resolve r ref ≡ AssertionEffectiveness.ineffective) ↔ (
        (in_keys (identity_key ref) r.unknown_keys ≡ false)
        × (is_some (find (identity_key ref) r.incoming) ≡ true))
unfolding resolve
resolve-split r ref = (λ h. ground arith, λ h. ground arith)

find-nil : (k : IdentityKey) → find k [] ≡ none
unfolding find
find-nil k = refl

found_of_some :
    (k : IdentityKey) (cs : List Correction)
    → is_some (find k (index [] cs)) ≡ true
    → (c : Correction) × Memᴰ c cs × (identity_key c.target ≡ k)
unfolding find
found_of_some k cs h = elim (Option-cases (find k (index [] cs))) [
  | inl e ↦ cc (rw e at h)
  | inr (c, e) ↦ elim (find-index k cs [] c e) [ inl (m, same) ↦ (c, m, same) | inr old ↦ cc ]
]

-- An assertion is ineffective exactly when its effectiveness is not held unknown and some
-- committed correction targets it.
pub resolve-ineffective_iff :
    (cs : List Correction) (keys : List IdentityKey) (ref : KnowledgeReference)
    → (resolve (from_corrections cs keys) ref ≡ AssertionEffectiveness.ineffective) ↔ (
        (in_keys (identity_key ref) keys ≡ false)
        × ((c : Correction) × Memᴰ c cs × (identity_key c.target ≡ identity_key ref)))
unfolding from_corrections
resolve-ineffective_iff cs keys ref = (
  λ h.
      let (known, found) = (resolve-split (from_corrections cs keys) ref).0 h in
      (known, found_of_some (identity_key ref) cs found),
  λ (known, target).
      (resolve-split (from_corrections cs keys) ref).1
        (known, index-finds (identity_key ref) cs [] (inr target)),
)

-- The correction that explains a reference is one of the ledger's that targets it.
pub explain-targets :
    (cs : List Correction) (keys : List IdentityKey) (ref : KnowledgeReference) (c : Correction)
    → explain (from_corrections cs keys) ref ≡ some c
    → Memᴰ c cs × (identity_key c.target ≡ identity_key ref)
unfolding explain from_corrections
explain-targets cs keys ref c h = elim (find-index (identity_key ref) cs [] c h) [
  | inl found ↦ found
  | inr old ↦ cc (find-nil (identity_key ref))
]

-- A correction of one user that passed its validator.
abbrev pub IsOf : Text → Correction → Type 0
IsOf user c = (c.user_id ≡ user) × (validate c ≡ some c)

target_user : (user : Text) (c : Correction) → IsOf user c → c.target.user_id ≡ user
unfolding validate
target_user user c h = ground arith

All-mem :
    (P : Correction → Type 0) (c : Correction) (cs : List Correction) → All P cs → Memᴰ c cs → P c
All-mem P c [] a m = elim m [ ]
All-mem P c (d ∷ cs) a (Memᴰ.head e) = rw e a.0
All-mem P c (d ∷ cs) a (Memᴰ.tail m) = All-mem P c cs a.1 m

key_user : (a b : KnowledgeReference) → identity_key a ≡ identity_key b → a.user_id ≡ b.user_id
unfolding identity_key
key_user a b e = cc

same_unless :
    (t : Incoming) (keys : List IdentityKey) (ref : KnowledgeReference)
    → ¬ (
        resolve (record { incoming = t; unknown_keys = keys }) ref
        ≡ AssertionEffectiveness.ineffective)
    → resolve (record { incoming = t; unknown_keys = keys }) ref
      ≡ resolve (record { incoming = []; unknown_keys = keys }) ref
unfolding resolve
same_unless t keys ref n = ground (arith, find-nil (identity_key ref))

-- The valid corrections of one user leave the assertions of every other user as effective as they
-- were.
pub resolve-isolation :
    (user : Text) (cs : List Correction) (keys : List IdentityKey) (ref : KnowledgeReference)
    → All (IsOf user) cs
    → ref.user_id ≢ user
    → resolve (from_corrections cs keys) ref ≡ resolve (from_corrections [] keys) ref
unfolding from_corrections
resolve-isolation user cs keys ref a other = same_unless (index [] cs) keys ref λ h.
    let (known, (c, m, e)) = (resolve-ineffective_iff cs keys ref).0 h in
    other (cc (key_user c.target ref e, target_user user c (All-mem (IsOf user) c cs a m)))

abbrev pub is_effective : AssertionEffectiveness → Bool
is_effective AssertionEffectiveness.effective = true
is_effective _ = false

abbrev pub is_unknown : AssertionEffectiveness → Bool
is_unknown AssertionEffectiveness.unknown = true
is_unknown _ = false

module _ {A : Type 0} (kind : KnowledgePrimitiveKind) (user : Text) (r : Resolver)
    (id_of : A → Text) where
  abbrev status : A → AssertionEffectiveness
  status a = resolve r (reference_of kind user r id_of a)

  filter_from-eq :
      (es us items : List A)
      → filter_from kind user r id_of (es, us) items ≡ (
        es ++ filter (λ a. is_effective (status a)) items,
        us ++ filter (λ a. is_unknown (status a)) items,
      )
  unfolding filter_from
  filter_from-eq es us [] = simp append-nil
  filter_from-eq es us (a ∷ items) =
      by_status (λ es' us'. filter_from-eq es' us' items) (status a) refl
    where
      by_status :
          ((es us : List A)
            → filter_from kind user r id_of (es, us) items ≡ (
              es ++ filter (λ x. is_effective (status x)) items,
              us ++ filter (λ x. is_unknown (status x)) items,
            ))
          → (v : AssertionEffectiveness) → status a ≡ v
          → filter_from kind user r id_of (add_by (status a) a (es, us)) items ≡ (
            es ++ filter (λ x. is_effective (status x)) (a ∷ items),
            us ++ filter (λ x. is_unknown (status x)) (a ∷ items),
          )
      by_status ih AssertionEffectiveness.effective e = rw e (rw (ih, append_assoc) refl)
      by_status ih AssertionEffectiveness.ineffective e = rw e (ih es us)
      by_status ih AssertionEffectiveness.unknown e = rw e (rw (ih, append_assoc) refl)

  -- The filter returns the effective items and the items of unknown effectiveness, each in the order
  -- of the input, and no ineffective one.
  pub filter_effective-eq :
      (items : List A)
      → filter_effective kind user r id_of items
        ≡ (filter (λ a. is_effective (status a)) items, filter (λ a. is_unknown (status a)) items)
  unfolding filter_effective
  filter_effective-eq items = filter_from-eq [] [] items
