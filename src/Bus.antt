-- ===== src/Bus.antt =====
-- internal/bus: the in-memory bus that publishes session events to subscribers.
pub mod State
pub mod Subscribe
pub mod Publish
pub mod Delivery
pub mod Fanout
pub mod Resuming
pub mod Waiting
pub mod Bounds
pub mod Joining
pub mod Admission
pub mod History
pub mod Scenarios
pub mod Fits
