-- ===== src/Core/Approval.antt =====
-- packages/pdx_artifact_core/src/pdx_artifact_core/approval.py: checkpoints, the ledger of approval
-- decisions, and the plan that an approved decision resumes.
-- `J` stands for JSON content that the code only copies, `E` for the evidence digests, which it
-- compares. Identifiers and times that the code draws (`uuid4`, `datetime.now`) are arguments.
pub mod Defs
pub mod Checkpoint
pub mod Ledger
pub mod Resume
mod Tests
