-- ===== src/Admission/Controller.antt =====
-- internal/admission/controller.go and policy_update.go.
pub mod State
pub mod Lifecycle
pub mod Decide
pub mod Reconcile
pub mod Capacity
pub mod Publish
pub mod Update
pub mod Sums
pub mod Outcomes
pub mod Admissions
pub mod Invariant
pub mod Steps
pub mod Closed
pub mod Handles
pub mod Debts
pub mod Revisions
pub mod Publications
pub mod Monotone
pub mod Cached
