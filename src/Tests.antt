-- ===== src/Tests.antt =====
-- Runs of the definitions at concrete inputs.
pub mod Fixtures
pub mod Queue
pub mod Rounds
pub mod Running
pub mod Shutdown
pub mod Hooks
pub mod Alerts
pub mod Whole
