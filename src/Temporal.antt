-- ===== src/Temporal.antt =====
-- Time in the knowledge core (pke/src/pke/domain, pke/src/pke/temporal): instants and dates,
-- `TimeValue`, `TemporalKnowledge`, the ternary membership in a query's range, and the endpoints of
-- a relation's life.
pub mod Instant
pub mod Value
pub mod Knowledge
pub mod Membership
mod Examples
