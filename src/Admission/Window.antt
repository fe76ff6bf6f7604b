-- ===== src/Admission/Window.antt =====
-- internal/admission/tps_window.go: the rolling window of TPS evidence.
pub mod Denominator
pub mod Buckets
pub mod Observe
pub mod Index
pub mod Fuel
pub mod Snapshot
