-- ===== src/Server.antt =====
-- internal/app/server: what stands between a request and the admission controller.
pub mod Decision
pub mod Queue
pub mod Runtime
pub mod Tests
