-- ===== src/Composition.antt =====
-- Composing a stack from a recipe and layers:
-- packages/stackwarden/src/stackwarden/domain/composition.py
mod Packaging
mod Layers
mod Samples
mod Tests
pub mod Pip
pub mod Npm
pub mod Preview
pub mod Compose
pub mod Agreement
unfoldable pub use Packaging.*
