-- ===== src/Victron.antt =====
-- The package internal/victron.
pub mod Device
pub mod Metrics
pub mod Collector
