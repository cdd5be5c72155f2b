-- ===== src/Core/Snapshot.antt =====
-- packages/pdx_artifact_core/src/pdx_artifact_core/snapshots.py: run snapshots, their encoding, and
-- the repositories in memory.
pub mod Defs
pub mod Repository
pub mod Soundness
pub mod Codec
pub mod Versions
pub mod Decisions
mod Tests
