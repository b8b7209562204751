-- ===== src/Worker.antt =====
-- internal/consumer: the worker that runs one task of a batch. Its parts: `Env`, what it calls;
-- `Messages`, what it reads from events and prompts; `Following`,
-- the event loop; `Session`, one run of an agent; `Tasks`, the
-- execution and the verification; `Reports`, what is told
-- about them; `Attempts`, the attempts at a task; `Process`, a work item.
pub mod Env
pub mod Messages
pub mod Following
pub mod Session
pub mod Tasks
pub mod Reports
pub mod Attempts
pub mod Process
pub mod Outcomes
pub mod Retries
pub mod Termination
pub mod Writes
pub mod Safety
pub mod Tending
pub mod Keeping
pub mod Serving
pub mod Pending
pub mod Scenarios
mod SafetyScenarios
