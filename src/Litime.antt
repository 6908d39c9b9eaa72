-- ===== src/Litime.antt =====
-- The package internal/litime.
pub mod Battery
pub mod Metrics
pub mod Queue
pub mod Notify
pub mod Race
pub mod Backoff
pub mod Resolve
pub mod Poll
pub mod Supervise
pub mod Adapter
pub mod Manager
