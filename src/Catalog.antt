-- ===== src/Catalog.antt =====
-- The catalog of artifacts: packages/stackwarden/src/stackwarden/catalog/
pub mod Samples
mod Tests
pub mod Records
pub mod Session
pub mod Store
pub mod Queries
pub mod Keys
pub mod RoundTrip
pub mod Unused
pub mod Pruning
