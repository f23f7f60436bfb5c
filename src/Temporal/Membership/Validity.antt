-- ===== src/Temporal/Membership/Validity.antt =====
-- The validity of a fact over a range: `validity_interval_membership` of
-- pke/src/pke/temporal/membership.py.
use jamesbrain.Common.{
  ℕ, ◌-◌, ◌≤◌, ◌<◌, ◌≡◌, ◌↔◌, ◌⊎◌, refl, inl, inr, Bool, true, Option, none, some, arith,
}
use native.Mathlib.Decide.{dec_le}
use jamesbrain.Temporal.Instant.{DateTime, utc}
use jamesbrain.Temporal.Membership.{
  TemporalMembership, TimeRange, IsRange, validity_interval_membership,
}
use jamesbrain.Temporal.Membership.Coarse.{InRange, InWindow}

validity-match :
    (s e : DateTime) (q : TimeRange) (o : Bool)
    → IsRange q
    → (validity_interval_membership (some s) (some e) q o ≡ TemporalMembership.match)
      ↔ ((utc s ≤ utc q.start) × (utc q.end ≤ utc e))
unfolding validity_interval_membership
validity-match s e q o r = (λ h. ground arith, λ h. ground arith)

-- With both ends known the answer is MATCH exactly when the fact held at every instant of the range.
pub validity-match_iff :
    (s e : DateTime) (q : TimeRange) (o : Bool)
    → IsRange q
    → (validity_interval_membership (some s) (some e) q o ≡ TemporalMembership.match)
      ↔ ((x : ℕ) → InRange q x → InWindow s e x)
validity-match_iff s e q o r = (
  λ h x i. omega (arith, (validity-match s e q o r).0 h),
  λ h.
      (validity-match s e q o r).1
        (omega (arith, h (utc q.start) (omega arith), h (utc q.end - 1) (omega arith))),
)

validity-no_match :
    (s e : DateTime) (q : TimeRange) (o : Bool)
    → (validity_interval_membership (some s) (some e) q o ≡ TemporalMembership.no_match)
      ↔ ((utc e ≤ utc q.start) ⊎ (utc q.end ≤ utc s))
unfolding validity_interval_membership
validity-no_match s e q o = (λ h. ground arith, λ h. ground arith)

disjoint :
    (s e : DateTime) (q : TimeRange)
    → IsRange q
    → utc s < utc e
    → ((x : ℕ) → InRange q x → ¬ InWindow s e x)
    → (utc e ≤ utc q.start) ⊎ (utc q.end ≤ utc s)
disjoint s e q r v h = elim (dec_le (utc s) (utc q.start)) [
  | yes p ↦ elim (dec_le (utc e) (utc q.start)) [
    | yes before ↦ inl before
    | no after ↦ absurd (h (utc q.start) (omega arith) (omega arith))
  ]
  | no p ↦ elim (dec_le (utc q.end) (utc s)) [
    | yes after ↦ inr after
    | no before ↦ absurd (h (utc s) (omega arith) (omega arith))
  ]
]

-- And it is NO_MATCH exactly when the fact, which held for some time, held at no instant of the
-- range.
pub validity-no_match_iff :
    (s e : DateTime) (q : TimeRange) (o : Bool)
    → IsRange q
    → utc s < utc e
    → (validity_interval_membership (some s) (some e) q o ≡ TemporalMembership.no_match)
      ↔ ((x : ℕ) → InRange q x → ¬ InWindow s e x)
validity-no_match_iff s e q o r v = (
  λ h x i w. omega (arith, (validity-no_match s e q o).0 h),
  λ h. (validity-no_match s e q o).1 (disjoint s e q r v h),
)

-- Where one end or both are unknown, every way to fill them in agrees with the answer: a definite
-- answer is the one that any interval with the known ends would get. An open end counts as one that
-- lies past the range.
pub validity_fill :
    (start end : Option DateTime) (s e : DateTime) (q : TimeRange) (o : Bool)
    → IsRange q
    → utc s < utc e
    → ((a : DateTime) → start ≡ some a → a ≡ s)
    → ((b : DateTime) → end ≡ some b → b ≡ e)
    → (o ≡ true → end ≡ none → utc q.end ≤ utc e)
    → (validity_interval_membership start end q o ≡ TemporalMembership.unknown)
      ⊎ (validity_interval_membership start end q o
          ≡ validity_interval_membership (some s) (some e) q o)
unfolding validity_interval_membership
validity_fill none none s e q o r v hs he ho = ground arith
validity_fill none (some b) s e q o r v hs he ho = ground (arith, he b refl)
validity_fill (some a) none s e q o r v hs he ho = ground (arith, hs a refl)
validity_fill (some a) (some b) s e q o r v hs he ho = ground (arith, hs a refl, he b refl)
