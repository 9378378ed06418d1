-- ===== src/Promotion.antt =====
-- The promotion of evidence strata: packages/domain/src/policy.ts.
pub mod Data
pub mod Deciding
pub mod Gates
pub mod Histories
mod Examples
