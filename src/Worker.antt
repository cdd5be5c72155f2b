-- ===== src/Worker.antt =====
-- runtime/pdx_artifact_engine/worker.py: a worker that claims jobs and has the Kernel process them.
pub mod Lease
pub mod OutputName
pub mod Kernel
pub mod Process
pub mod Invariant
pub mod Attempts
pub mod Processing
pub mod Calls
pub mod Names
mod Tests
