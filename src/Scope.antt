-- ===== src/Scope.antt =====
-- The scope of an analysis: packages/domain/src/analysis-scope.ts decides which repositories an analysis
-- may consider, packages/application/src/analysis-scope.ts asks for their authorization, and
-- packages/application/src/scoped-reads.ts lets the delegates be read only inside the scope.
pub mod Data
pub mod Preparing
pub mod Finalizing
pub mod Resolving
pub mod Boundary
pub mod Outcomes
pub mod Resolved
pub mod Capability
pub mod Answers
pub mod Reads
pub mod Confined
mod Examples
