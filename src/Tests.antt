-- ===== src/Tests.antt =====
-- The theorems at concrete inputs.
pub mod Orbits
pub mod Scores
pub mod Backlogs
pub mod Data
pub mod Sync
pub mod Frames
pub mod Readings
pub mod Servers
pub mod Exports
pub mod Systems
pub mod Outside
