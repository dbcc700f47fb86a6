-- ===== src/Examples.antt =====
-- Tests: the theorems at concrete inputs.
pub mod Data
mod SeriesCache
mod Alerts
mod Runtime
mod Markets
