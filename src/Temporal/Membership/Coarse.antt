-- ===== src/Temporal/Membership/Coarse.antt =====
-- Occurrence, observation and assertion windows: what the ternary answer of
-- pke/src/pke/temporal/membership.py says of the instants at which a fact may have been.
use jamesbrain.Common.{
  ℕ, ◌≤◌, ◌<◌, ◌≡◌, ◌≢◌, ◌⊎◌, refl, inl, inr, Option, none, some, arith, Bool-cases,
}
use native.Mathlib.Decide.{dec_le}
use jamesbrain.Temporal.Instant.{DateTime, utc, ZoneData}
use jamesbrain.Temporal.Knowledge.{TemporalKnowledge, is_habitual_kind, calendar_granularity}
use jamesbrain.Temporal.Membership.{
  TemporalMembership, TemporalMembershipRole, TimeRange, IsRange, Window, exact_instant,
  occurrence_possible_window, coarse_window_membership, coarse_role_membership, range_membership,
  instant_membership, window_membership, recurs, is_instant_gran,
}

abbrev pub InRange : TimeRange → ℕ → Type 0
InRange q x = (utc q.start ≤ x) × (x < utc q.end)

abbrev pub InWindow : DateTime → DateTime → ℕ → Type 0
InWindow s e x = (utc s ≤ x) × (x < utc e)

-- The instants at which the fact may have been: its exact instant, else its window, else any.
abbrev pub PossibleAt : Option DateTime → Option Window → ℕ → Type 0
PossibleAt (some i) w x = x ≡ utc i
PossibleAt none (some w) x = InWindow w.0 w.1 x
PossibleAt none none x = Unit

abbrev pub Possible : ZoneData → TemporalKnowledge → ℕ → Type 0
Possible zd t x = PossibleAt (exact_instant t) (occurrence_possible_window zd t) x

-- What each answer claims of the possible instants.
abbrev pub Verdict : TemporalMembership → (ℕ → Type 0) → TimeRange → Type 0
Verdict TemporalMembership.match P q = (x : ℕ) → P x → InRange q x
Verdict TemporalMembership.no_match P q = (x : ℕ) → P x → ¬ InRange q x
Verdict TemporalMembership.unknown P q = Unit

Verdict-intro :
    (m : TemporalMembership) (P : ℕ → Type 0) (q : TimeRange)
    → (m ≡ TemporalMembership.match → (x : ℕ) → P x → InRange q x)
    → (m ≡ TemporalMembership.no_match → (x : ℕ) → P x → ¬ InRange q x)
    → Verdict m P q
Verdict-intro TemporalMembership.match P q yes_all no_all = yes_all refl
Verdict-intro TemporalMembership.no_match P q yes_all no_all = no_all refl
Verdict-intro TemporalMembership.unknown P q yes_all no_all = tt

coarse_window-match :
    (s e : DateTime) (q : TimeRange)
    → coarse_window_membership s e q ≡ TemporalMembership.match
    → (utc q.start ≤ utc s) × (utc e ≤ utc q.end)
unfolding coarse_window_membership
coarse_window-match s e q h = ground arith

coarse_window-no_match :
    (s e : DateTime) (q : TimeRange)
    → coarse_window_membership s e q ≡ TemporalMembership.no_match
    → (utc e ≤ utc q.start) ⊎ (utc q.end ≤ utc s)
unfolding coarse_window_membership
coarse_window-no_match s e q h = ground arith

coarse_window-unknown :
    (s e : DateTime) (q : TimeRange)
    → coarse_window_membership s e q ≡ TemporalMembership.unknown
    → (utc q.start < utc e) × (utc s < utc q.end) × ((utc s < utc q.start) ⊎ (utc q.end < utc e))
unfolding coarse_window_membership
coarse_window-unknown s e q h = ground arith

coarse_window-Verdict :
    (s e : DateTime) (q : TimeRange) → Verdict (coarse_window_membership s e q) (InWindow s e) q
coarse_window-Verdict s e q =
    Verdict-intro (coarse_window_membership s e q) (InWindow s e) q
      (λ h x w. omega (arith, coarse_window-match s e q h))
      (λ h x w r. omega (arith, coarse_window-no_match s e q h))

-- When the answer for a non-empty window is UNKNOWN, the fact may have been inside the range and it
-- may have been outside: the window holds an instant of either sort.
pub coarse_unknown-split :
    (s e : DateTime) (q : TimeRange)
    → utc s < utc e
    → IsRange q
    → coarse_window_membership s e q ≡ TemporalMembership.unknown
    → ((x : ℕ) × InWindow s e x × InRange q x) × ((y : ℕ) × InWindow s e y × (¬ InRange q y))
coarse_unknown-split s e q h r u =
    let (a, b, c) = coarse_window-unknown s e q u in
    (
      elim (dec_le (utc s) (utc q.start)) [
        | yes p ↦ (utc q.start, omega arith, omega arith)
        | no p ↦ (utc s, omega arith, omega arith)
      ],
      elim c [
        | inl early ↦ (utc s, omega arith, λ i. omega arith)
        | inr late ↦ (utc q.end, omega arith, λ i. omega arith)
      ],
    )

-- Learning more keeps a definite answer: a non-empty window inside the one that was known gets the
-- same MATCH or NO_MATCH.
pub coarse_narrower :
    (s e s' e' : DateTime) (q : TimeRange)
    → utc s ≤ utc s'
    → utc s' < utc e'
    → utc e' ≤ utc e
    → coarse_window_membership s e q ≢ TemporalMembership.unknown
    → coarse_window_membership s' e' q ≡ coarse_window_membership s e q
unfolding coarse_window_membership
coarse_narrower s e s' e' q a b c d = ground arith

instant-Verdict :
    (i : DateTime) (q : TimeRange) → Verdict (instant_membership i q) (λ x. x ≡ utc i) q
unfolding instant_membership
instant-Verdict i q =
    Verdict-intro (instant_membership i q) (λ x. x ≡ utc i) q (λ h x e. ground arith)
      (λ h x e r. ground arith)

window-Verdict :
    (zd : ZoneData) (t : TemporalKnowledge) (q : TimeRange) (w : Option Window)
    → occurrence_possible_window zd t ≡ w
    → Verdict (window_membership zd t q) (PossibleAt none w) q
unfolding window_membership
window-Verdict zd t q none e = elim (Bool-cases (is_instant_gran (calendar_granularity t))) [
  | inl vague ↦ rw vague tt
  | inr coarse ↦ rw (coarse, e) tt
]
window-Verdict zd t q (some w) e = elim (Bool-cases (is_instant_gran (calendar_granularity t))) [
  | inl vague ↦ rw vague tt
  | inr coarse ↦ rw (coarse, e) (coarse_window-Verdict w.0 w.1 q)
]

coarse_role-Verdict :
    (zd : ZoneData) (t : TemporalKnowledge) (q : TimeRange) (i : Option DateTime)
    → exact_instant t ≡ i
    → Verdict (coarse_role_membership zd t q) (PossibleAt i (occurrence_possible_window zd t)) q
unfolding coarse_role_membership
coarse_role-Verdict zd t q i e = elim (Bool-cases (is_habitual_kind t.kind)) [
  | inl habit ↦ rw habit tt
  | inr single ↦ elim (Bool-cases (recurs t.calendar)) [
    | inl again ↦ rw (single, again) tt
    | inr once ↦ rw (single, once) (at i e)
  ]
]
  where
    at :
        (i : Option DateTime)
        → exact_instant t ≡ i
        → Verdict
            (elim (exact_instant t) [
              | some i ↦ instant_membership i q
              | none ↦ window_membership zd t q
            ])
            (PossibleAt i (occurrence_possible_window zd t))
            q
    at none e = rw e (window-Verdict zd t q _ refl)
    at (some i) e = rw e (instant-Verdict i q)

-- For every role but validity, a MATCH says that the fact was in the range at whichever instant it
-- may have been, and a NO_MATCH that it was not.
pub range_membership-Verdict :
    (zd : ZoneData) (t : TemporalKnowledge) (q : TimeRange) (r : TemporalMembershipRole)
    → r ≢ TemporalMembershipRole.validity_interval
    → Verdict (range_membership zd t q r) (Possible zd t) q
unfolding range_membership
range_membership-Verdict zd t q TemporalMembershipRole.validity_interval h = absurd (h refl)
range_membership-Verdict zd t q _ h = coarse_role-Verdict zd t q (exact_instant t) refl
