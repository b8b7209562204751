-- ===== src/Tracker.antt =====
-- internal/tracker: the tracker of tasks, and the one that runs the bd command.
pub mod Interface
pub mod Beads
pub mod Checks
pub mod Leftovers
mod Scenarios
