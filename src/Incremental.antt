-- ===== src/Incremental.antt =====
-- The planner that incremental adapters share, packages/adapter-sdk/src/incremental.ts: which partitions
-- of an index a set of changed paths invalidates.
pub mod Data
pub mod Planning
pub mod Matching
pub mod Passes
pub mod Closing
pub mod Changes
pub mod Plans
pub mod Valid
mod Examples
