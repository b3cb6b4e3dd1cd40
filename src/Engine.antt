-- ===== src/Engine.antt =====
-- src/engine.rs and src/recovery.rs: the workflow engine.
pub mod Replay
pub mod Backoff
pub mod Reasons
pub mod Key
pub mod State
pub mod Ensures
pub mod Gives
pub mod Step
pub mod Mounted
pub mod Jobs
pub mod Returns
pub mod Cancel
pub mod Closing
pub mod Failure
pub mod Input
pub mod Recover
pub mod Drive
pub mod Trace
mod Tests
mod LogTests
