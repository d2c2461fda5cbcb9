-- ===== src/Orchestrator.antt =====
-- The orchestrator package: src/josu/orchestrator.
pub mod CircuitBreaker
pub mod Merge
pub mod Run
pub mod Worktree
pub mod Adapter
pub mod ClaudeCode
