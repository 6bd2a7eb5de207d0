-- ===== src/Builds.antt =====
-- From a plan to an artifact: packages/stackwarden/src/stackwarden/domain/drift.py and
-- packages/stackwarden/src/stackwarden/builders/plan_executor.py
mod Samples
mod Tests
pub mod Plans
pub mod Drift
pub mod Freshness
pub mod Executor
pub mod Lifecycle
pub mod Tracked
pub mod Captured
pub mod Live
pub mod Outcome
