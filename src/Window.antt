-- ===== src/Window.antt =====
-- src/window.rs: the sliding-window primitives that every detector shares.
-- Capture times are seconds since the epoch, so an `i64` difference is written as a sum on the
-- other side of its comparison: `now - t >= k` is `t + k ≤ now`.
pub mod DistinctKeys
pub mod AlertGate
pub mod RateWindow
pub mod Periodicity
mod Tests
