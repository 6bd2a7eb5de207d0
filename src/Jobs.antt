-- ===== src/Jobs.antt =====
-- The build jobs of the web server: packages/stackwarden/src/stackwarden/web/jobs/
mod Samples
mod Tests
pub mod Records
pub mod Store
pub mod Events
pub mod Manager
pub mod Runner
pub mod Statuses
pub mod Steps
pub mod Phases
pub mod Final
pub mod Delivery
