-- ===== src/Relations/Query/Held.antt =====
-- Validity of relations over a range, and what a termination does to them
-- (pke/src/pke/query/relation_resolver.py and pke/src/pke/domain/relations.py).
use jamesbrain.Common.{true, ◌≤◌, ◌≡◌, ◌↔◌, refl, Option, none, some, arith, or_else}
use jamesbrain.Temporal.Instant.{DateTime, ZoneData, utc}
use jamesbrain.Temporal.Membership.{
  TemporalMembership, TimeRange, IsRange, validity_interval_membership,
}
use jamesbrain.Relations.{Relation, relation_calendar_start}
use jamesbrain.Relations.Query.{relation_held_during}

-- The start that counts for a relation.
abbrev pub start_of : ZoneData → Relation → Option DateTime
start_of zd r = or_else r.valid_from (relation_calendar_start zd (some r.temporal))

validity-open :
    (start : Option DateTime) (q : TimeRange)
    → IsRange q
    → ((validity_interval_membership start none q true ≡ TemporalMembership.match)
        ↔ ((s : DateTime) × (start ≡ some s) × (utc s ≤ utc q.start)))
      × ((validity_interval_membership start none q true ≡ TemporalMembership.no_match)
          ↔ ((s : DateTime) × (start ≡ some s) × (utc q.end ≤ utc s)))
unfolding validity_interval_membership
validity-open none q v = ((λ h. cc, λ (s, e, l). cc), (λ h. cc, λ (s, e, l). cc))
validity-open (some s) q v = (
  (λ h. (s, refl, ground arith), λ (s', e, l). ground arith),
  (λ h. (s, refl, ground arith), λ (s', e, l). ground arith),
)

-- A current relation held through the range exactly when it is known to have started by its
-- beginning, and did not hold in it exactly when it is known to start after its end.
pub held_during-current :
    (zd : ZoneData) (r : Relation) (q : TimeRange)
    → r.is_current ≡ true
    → IsRange q
    → ((relation_held_during zd r q ≡ TemporalMembership.match)
        ↔ ((s : DateTime) × (start_of zd r ≡ some s) × (utc s ≤ utc q.start)))
      × ((relation_held_during zd r q ≡ TemporalMembership.no_match)
          ↔ ((s : DateTime) × (start_of zd r ≡ some s) × (utc q.end ≤ utc s)))
unfolding relation_held_during
held_during-current zd r q h v = rw h (validity-open (start_of zd r) q v)
