-- ===== src/Worker.antt =====
-- The worker that claims jobs and runs their handlers: go/internal/worker.
pub mod Retry
pub mod Claim
pub mod Runner
pub mod Steps
