-- ===== src/Outcomes.antt =====
-- What a call returns and leaves in the jobs table (src/core/store.mjs).
pub mod Update
pub mod Freed
pub mod Release
pub mod Finish
pub mod Delays
pub mod Failure
pub mod Insert
pub mod Enqueue
pub mod Recover
pub mod Kept
pub mod Claim
pub mod Requeue
