-- ===== src/Compatibility.antt =====
-- packages/stackwarden/src/stackwarden/resolvers/compatibility.py, with the lookups of
-- domain/hardware_catalog.py and the models of resolvers/rule_catalog.py and domain/tuple_catalog.py.
-- Floating-point numbers are the parameter `Floats`. The trace, the summary and the suggested fixes
-- of a report are left out, and so is the log.
pub mod Records
pub mod Hardware
pub mod Requirements
pub mod Cuda
pub mod Tuples
pub mod Rules
pub mod Evaluate
pub mod Passing
pub mod Resolution
mod Tests
