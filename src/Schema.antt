-- ===== src/Schema.antt =====
-- The schema layer: field metadata, constraints, collections, their registry and the registry of
-- functions.
pub mod Fields
pub mod Constraints
pub mod Collection
pub mod Documents
pub mod Registry
pub mod Functions
