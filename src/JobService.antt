-- ===== src/JobService.antt =====
-- runtime/pdx_artifact_engine/jobs/service.py: the operations on jobs that clients call.
pub mod World
pub mod Requests
pub mod Finalize
pub mod Create
pub mod Reconcile
pub mod Retrieve
pub mod Calls
pub mod Verified
pub mod Stored
pub mod Writes
pub mod Created
pub mod Unchanged
pub mod Cancelled
mod Tests
