-- ===== src/Findings.antt =====
-- The findings of an analysis: packages/domain/src/finding.ts, whose records stand in Delivery/Data.antt.
pub mod Creating
pub mod Current
mod Examples
