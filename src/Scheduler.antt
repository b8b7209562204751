-- ===== src/Scheduler.antt =====
-- internal/scheduler/scheduler.go and interface.go: the periodic selection of batch items.
pub mod State
pub mod Select
pub mod Settle
pub mod Tick
pub mod Selection
pub mod Invariant
pub mod Claiming
pub mod Liveness
pub mod Steps
pub mod Protocol
pub mod Writes
pub mod Effects
pub mod Pause
pub mod Runs
pub mod Scenarios
pub mod Calls
pub mod Attempts
