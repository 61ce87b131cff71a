-- ===== src/Worker.antt =====
-- The worker process protocol, of internal/workerproc.
pub mod Sequence
pub mod Cleanup
pub mod Rounds
pub mod Ownership
pub mod Complete
mod Tests
