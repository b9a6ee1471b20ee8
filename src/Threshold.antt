-- ===== src/Threshold.antt =====
-- src/threshold.rs: per-rule rate control and the bits that rules share between connections.
-- Times are milliseconds since the epoch.
pub mod Gate
pub mod Run
mod Tests
