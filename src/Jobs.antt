-- ===== src/Jobs.antt =====
-- runtime/pdx_artifact_engine/jobs: the durable rows of jobs (__init__.py), and the contract that
-- the results in them meet (result_contract.py).
pub mod Results
pub mod Rows
pub mod Store
pub mod Table
pub mod Claims
pub mod Effects
pub mod Fencing
pub mod Keys
pub mod Lifecycle
mod Tests
pub mod Attempts
