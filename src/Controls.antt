-- ===== src/Controls.antt =====
-- The operational controls of the GitHub host: packages/host-github/src/controls.ts. The telemetry is left
-- out, which only forwards to its sink.
pub mod Switches
pub mod Owners
pub mod Advisory
pub mod Ownership
mod Examples
