-- ===== src/Product.antt =====
-- The conversation side of the product (pke/src/pke/product): its durable store, the idempotency
-- keys, the operational recovery and the orchestrator of a message.
pub mod Dtos
pub mod World
pub mod Idempotency
pub mod Store
pub mod Recovery
pub mod Orchestrator
