-- ===== src/Operations.antt =====
-- Background operations (lxd/operations.go), the status codes they go through
-- (shared/api/status_code.go) and the canceler of their downloads (shared/cancel/canceler.go).
pub mod Status
pub mod Operation
pub mod Registry
pub mod Threads
mod Tests
