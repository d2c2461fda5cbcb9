-- ===== src/Delegate.antt =====
-- The delegate package: src/josu/delegate.
pub mod Errors
pub mod Json
pub mod Cooldown
pub mod Client
pub mod LocalModel
pub mod Queue
pub mod Chain
