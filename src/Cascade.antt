-- ===== src/Cascade.antt =====
-- The cascade of `cancelDependentJobs` (src/core/store.mjs).
pub mod Sweep
pub mod Closure
