-- ===== src/Ontology.antt =====
-- The concepts of the ontology and their registry (pke/src/pke/domain/ontology.py,
-- pke/src/pke/ontology/registry.py).
pub mod Dict
pub mod Concept
pub mod Registry
pub mod Examples
