-- ===== src/Storage.antt =====
-- internal/storage: the documents, and the persistence contract that the other parts depend on.
pub mod Models
pub mod Interface
pub mod Contract
pub mod Progress
pub mod Scenarios
