-- ===== src/Composition/Agreement.antt =====
-- The preview of conflicts against the composition itself: the preview reports a hard pip or npm
-- conflict, or raises, exactly when the merges of `compose_stack` fail.
pub mod View
pub mod Pip
pub mod Npm
pub mod Parts
