-- ===== src/Core/Extraction/Data.antt =====
-- The state of a continuable extraction, and what its functions take.
-- `R` stands for the range descriptors, which the code digests, copies and tests for emptiness.
use pdx_artifact_engine.Prelude.{
  ℕ, String, List, Bool, true, false, Option, none, some, ◌≡◌, arith, ◌==◌, ==_iff, string_eq,
}

pub data Phase : Type 0 where
  pending completed failed cancelled timed_out : Phase

abbrev pub phase_beq : Phase → Phase → Bool
phase_beq pending pending = true
phase_beq completed completed = true
phase_beq failed failed = true
phase_beq cancelled cancelled = true
phase_beq timed_out timed_out = true
phase_beq _ _ = false

-- The coverage of a range; a caller may hand in any text.
pub data Disposition : Type 0 where
  complete partial_known partial_unknown unsupported : Disposition
  other : String → Disposition

abbrev pub disposition_beq : Disposition → Disposition → Bool
disposition_beq complete complete = true
disposition_beq partial_known partial_known = true
disposition_beq partial_unknown partial_unknown = true
disposition_beq unsupported unsupported = true
disposition_beq (other s) (other t) = s == t
disposition_beq _ _ = false

pub disposition_beq_refl : (d : Disposition) → disposition_beq d d ≡ true
disposition_beq_refl (other s) = ground (arith, ==_iff s s)
disposition_beq_refl complete = ground arith
disposition_beq_refl partial_known = ground arith
disposition_beq_refl partial_unknown = ground arith
disposition_beq_refl unsupported = ground arith

pub data Ocr : Type 0 where
  not_evaluated performed_complete performed_partial not_performed unavailable : Ocr
  other_ocr : String → Ocr

-- `ocr_priority`
abbrev pub ocr_priority : Ocr → Option ℕ
ocr_priority not_evaluated = some 0
ocr_priority performed_complete = some 1
ocr_priority performed_partial = some 2
ocr_priority not_performed = some 3
ocr_priority unavailable = some 4
ocr_priority (other_ocr t) = none

pub data Reason : Type 0 where
  reason_completed unsupported_projection incomplete_projection : Reason

pub data Authority : Type 0 where
  kernel_adapter caller_assertion : Authority

abbrev pub is_kernel : Authority → Bool
is_kernel kernel_adapter = true
is_kernel caller_assertion = false

-- One of `accepted_ranges`.
pub record AcceptedRange : Type 0 where
  pub sequence : ℕ
  pub idempotency_key : String
  pub request_range_digest : String
  pub result_artifact_digest : String
  pub result_payload_digest : String
  pub response_range_digest : String
  pub coverage_disposition : Disposition
  pub omissions : List String
  pub semantic_validation_digest : Option String
  pub ocr_disposition : Option Ocr
  pub returned_blocks : ℕ
  pub returned_bytes : ℕ
  pub next_range_digest : Option String
  pub terminal : Bool

pub record Coverage : Type 0 where
  pub disposition : Disposition
  pub omissions : List String
  pub ocr_disposition : Ocr

-- `consumed`, and `limits`
pub record Amounts : Type 0 where
  pub ranges : ℕ
  pub blocks : ℕ
  pub bytes : ℕ
  pub retries : ℕ

-- What names an extraction, and never changes.
pub record Source : Type 0 where
  pub operation_id : String
  pub source_artifact_digest : String
  pub source_sha256 : String
  pub media_type : String
  pub parser_contract_name : String
  pub parser_contract_version : String
  pub capability_digest : String
  pub capability_authority : Authority
  pub capability_verified : Bool

pub record Extraction (R : Type 0) : Type 0 where
  pub source : Source
  pub state : Phase
  pub revision : ℕ
  pub next_range_descriptor : Option R
  pub next_range_digest : Option String
  pub accepted_ranges : List AcceptedRange
  pub aggregate_artifact_digest : String
  pub coverage_accumulator : Coverage
  pub terminal_coverage : Option Coverage
  pub terminal_reason : Option Reason
  pub consumed : Amounts
  pub limits : Amounts

-- The keyword arguments of `accept_extraction_range`.
pub record Acceptance (R : Type 0) : Type 0 where
  pub expected_revision : ℕ
  pub idempotency_key : String
  pub request_range : R
  pub result_artifact_digest : String
  pub result_payload_digest : String
  pub returned_blocks : ℕ
  pub returned_bytes : ℕ
  pub next_range : Option R
  pub response_range : Option R
  pub coverage_disposition : Option Disposition
  pub omissions : List String
  pub semantic_validation_digest : Option String
  pub ocr_disposition : Option Ocr

pub data Problem : Type 0 where
  schema : String → Problem
  sequence_gap count_mismatch : Problem
  ranges_over blocks_over bytes_over retries_over : Problem
  pending_terminal authority_mismatch incomplete_evidence : Problem

pub data ExtractionError : Type 0 where
  invalid_state : List Problem → ExtractionError
  invalid_transition : List Problem → ExtractionError
  key_conflict terminal_rejects revision_conflict unexpected_range : ExtractionError
  unvalidated_complete unsupported_disposition unsupported_ocr key_error : ExtractionError

-- The JSON schema, the digests of canonical JSON, the emptiness of a range descriptor, and
-- `sorted(set(a) | set(b))`.
pub record Contract (R : Type 0) : Type 0 where
  pub schema_errors : Extraction R → List Problem
  pub range_digest : R → String
  pub omissions_digest : List String → String
  pub first_aggregate : String
  pub aggregate_digest : (previous : String) (sequence : ℕ) (artifact payload : String) → String
  pub is_empty_range : R → Bool
  pub sorted_union : List String → List String → List String
