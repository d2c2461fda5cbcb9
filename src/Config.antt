-- ===== src/Config.antt =====
-- The config package: src/josu/config.
pub mod Toml
pub mod Delegate
pub mod Orchestrator
pub mod Chains
pub mod GraphEngines
pub mod Settings
pub mod Load
