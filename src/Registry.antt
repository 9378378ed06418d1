-- ===== src/Registry.antt =====
-- The workspace registry: packages/domain/src/registry.ts. Instants are milliseconds of the epoch: a
-- canonical instant is a fixed-width ISO text, and such texts compare as their times do.
pub mod Data
pub mod Validation
pub mod Valid
pub mod Aliases
pub mod Matching
pub mod Resolution
pub mod Outcomes
pub mod Unambiguous
pub mod Snapshots
pub mod Activation
mod Examples
mod SnapshotExamples
