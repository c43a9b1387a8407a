-- ===== src/Registry.antt =====
-- crates/oath-registry: the Merkle log of the registry, its tables, and its handlers.
pub mod Merkle
pub mod Control
pub mod Api
mod Events
