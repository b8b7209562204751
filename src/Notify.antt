-- ===== src/Notify.antt =====
-- internal/notify: what the worker and the scheduler report, and how a Slack webhook is told of it.
pub mod Events
pub mod Texts
pub mod Slack
mod Scenarios
