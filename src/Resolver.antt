-- ===== src/Resolver.antt =====
-- Resolving a profile and a stack into a plan: packages/stackwarden/src/stackwarden/resolvers/
mod Matching
mod Bases
mod Scoring
mod Selection
mod Rules
mod Validators
pub mod Fingerprint
mod Permuted
mod Hints
pub mod Plans
pub mod Resolve
pub mod Labels
pub mod Resolved
pub mod Fresh
pub mod Success
mod Tests
