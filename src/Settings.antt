-- ===== src/Settings.antt =====
-- internal/config: the settings, read from the environment and from a JSON file.
pub mod Load
pub mod Resolve
pub mod Required
pub mod Scenarios
pub mod Override
