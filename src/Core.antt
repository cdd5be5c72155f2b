-- ===== src/Core.antt =====
-- packages/pdx_artifact_core: the product-neutral contracts, one module for each source file.
pub mod State
pub mod ExternalOperation
pub mod Events
pub mod Book
pub mod Approval
pub mod Snapshot
pub mod Extraction
pub mod Execution
pub mod Provenance
pub mod Publication
pub mod Validation
