-- ===== src/App.antt =====
-- internal/app: the HTTP handlers over the storage contract.
pub mod Http
pub mod Batches
pub mod Agents
pub mod Repositories
pub mod Reads
pub mod Drain
pub mod Draining
pub mod Loop
pub mod Looping
pub mod Guards
pub mod Scenarios
mod LoopScenarios
pub mod Memory
