-- ===== src/Delivery.antt =====
-- What a check discloses and whether it is written: packages/domain/src/delivery.ts.
pub mod Disclosure
pub mod Data
pub mod Planning
pub mod Checks
pub mod Promotions
pub mod Modes
pub mod Disclosed
pub mod Findings
pub mod Samples
mod Examples
