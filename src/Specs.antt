-- ===== src/Specs.antt =====
-- The specifications that a user writes: packages/stackwarden/src/stackwarden/domain/models.py
-- and domain/enums.py.
mod Enums
mod Records
pub mod Validation
pub mod Profiles
pub mod Examples
unfoldable pub use Enums.*
pub use Records.*
