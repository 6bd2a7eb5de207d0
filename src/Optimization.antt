-- ===== src/Optimization.antt =====
-- packages/stackwarden/src/stackwarden/resolvers/build_optimization.py
-- An amount of memory is in hundredths of a gigabyte, to which the source rounds, and is computed
-- exactly. How numbers are printed is the parameter `Printing`.
pub mod Facts
pub mod Tokens
pub mod Sizing
pub mod Decision
pub mod Bounds
mod Tests
