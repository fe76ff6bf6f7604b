-- ===== src/Admission.antt =====
-- internal/admission: the admission controller and what it is made of.
pub mod Types
pub mod Numeric
pub mod Demand
pub mod Overlay
pub mod Reservation
pub mod Exposure
pub mod Tps
pub mod Projection
pub mod Gate
pub mod Bounds
pub mod Policy
pub mod Window
pub mod Histogram
pub mod Controller
pub mod Runs
pub mod Tests
