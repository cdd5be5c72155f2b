-- ===== src/Core/Extraction.antt =====
-- packages/pdx_artifact_core/src/pdx_artifact_core/continuable_extraction.py: a bounded extraction
-- that goes on range by range.
pub mod Data
pub mod Defs
pub mod Steps
pub mod Replay
pub mod Chain
pub mod Omissions
pub mod Completion
pub mod Receipts
mod Tests
