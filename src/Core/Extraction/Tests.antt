-- ===== src/Core/Extraction/Tests.antt =====
-- An extraction of two ranges: both are accepted, the first is handed in again, and it completes.
use pdx_artifact_engine.Prelude.{
  ◌∷◌, String, [], ◌++◌, true, none, some, ok, ◌==◌, string_eq, elem-append, ◌≡◌, ◌↔◌, refl, arith,
}
use pdx_artifact_engine.Core.Extraction.Data.{
  complete, performed_complete, kernel_adapter, Amounts, Source, Extraction, Acceptance, Contract,
}
use pdx_artifact_engine.Core.Extraction.Defs.{
  find_key, validate_continuable_extraction, create_continuable_extraction, first_state, advanced,
  check_disposition, accumulate_ocr, accept_new, accept_extraction_range,
}
use pdx_artifact_engine.Core.Extraction.Steps.{Calls, here, call}
use pdx_artifact_engine.Core.Extraction.Replay.{accept_replay, ended_stays}
use pdx_artifact_engine.Core.Extraction.Chain.{IsAccounted, WithinLimits, accept_range-IsAccounted}
use pdx_artifact_engine.Core.Extraction.Completion.{
  EndsValidated, IsFullReport, completed-EndsValidated,
}
use pdx_artifact_engine.Core.Extraction.Receipts.{
  Content, validate_continuable_extraction_receipt, IsConsistent, validate_receipt-IsConsistent_iff,
}

abbrev contract : Contract String
contract = record {
  schema_errors = λ s. [];
  range_digest = λ r. r;
  omissions_digest = λ os. "omissions";
  first_aggregate = "none";
  aggregate_digest = λ previous sequence artifact payload. artifact;
  is_empty_range = λ r. r == "";
  sorted_union = λ xs ys. xs ++ ys;
}

abbrev report : Source
report = record {
  operation_id = "op-1";
  source_artifact_digest = "sha256:source";
  source_sha256 = "source";
  media_type = "application/pdf";
  parser_contract_name = "pdf";
  parser_contract_version = "1";
  capability_digest = "sha256:capability";
  capability_authority = kernel_adapter;
  capability_verified = true;
}

abbrev two_ranges : Amounts
two_ranges = record { ranges = 2; blocks = 10; bytes = 1000; retries = 1 }

abbrev first_half : Acceptance String
first_half = record {
  expected_revision = 0;
  idempotency_key = "k1";
  request_range = "pages 1-2";
  result_artifact_digest = "sha256:a1";
  result_payload_digest = "sha256:p1";
  returned_blocks = 4;
  returned_bytes = 400;
  next_range = some "pages 3-4";
  response_range = none;
  coverage_disposition = none;
  omissions = "page 2 unreadable" ∷ [];
  semantic_validation_digest = none;
  ocr_disposition = some performed_complete;
}

abbrev second_half : Acceptance String
second_half = record {
  expected_revision = 1;
  idempotency_key = "k2";
  request_range = "pages 3-4";
  result_artifact_digest = "sha256:a2";
  result_payload_digest = "sha256:p2";
  returned_blocks = 5;
  returned_bytes = 500;
  next_range = none;
  response_range = none;
  coverage_disposition = some complete;
  omissions = [];
  semantic_validation_digest = some "sha256:v";
  ocr_disposition = none;
}

abbrev start : Extraction String
start = first_state contract report "pages 1-2" two_ranges

abbrev halfway : Extraction String
halfway = advanced contract start first_half performed_complete

abbrev finished : Extraction String
finished = advanced contract halfway second_half performed_complete

created : create_continuable_extraction contract report "pages 1-2" two_ranges ≡ ok start
unfolding create_continuable_extraction validate_continuable_extraction
created = refl

first_accepted : accept_extraction_range contract start first_half ≡ ok halfway
unfolding accept_extraction_range accept_new check_disposition accumulate_ocr
    validate_continuable_extraction find_key
first_accepted = refl

second_accepted : accept_extraction_range contract halfway second_half ≡ ok finished
unfolding accept_extraction_range accept_new check_disposition accumulate_ocr
    validate_continuable_extraction find_key
second_accepted = refl

two-Calls : Calls contract start finished
two-Calls = call (call here first_half first_accepted) second_half second_accepted

accept_replay_example : accept_extraction_range contract finished first_half ≡ ok finished
accept_replay_example =
    accept_replay contract start first_half first_accepted (call here second_half second_accepted)

first_again : accept_extraction_range contract finished first_half ≡ ok finished
unfolding accept_extraction_range validate_continuable_extraction find_key
first_again = refl

ended_stays_example : finished ≡ finished
ended_stays_example = ended_stays contract (ground arith) (call here first_half first_again)

accept_range-IsAccounted_example :
    IsAccounted contract "pages 1-2" report two_ranges finished × WithinLimits contract finished
accept_range-IsAccounted_example =
    accept_range-IsAccounted contract report "pages 1-2" two_ranges created two-Calls

completed-EndsValidated_example :
    EndsValidated finished.accepted_ranges
    × IsFullReport finished.accepted_ranges finished.terminal_coverage
completed-EndsValidated_example =
    completed-EndsValidated contract (λ x xs ys. elem-append x xs ys) report "pages 1-2" two_ranges
      created two-Calls refl

abbrev cancelled_receipt : Content Unit
cancelled_receipt = record {
  state = "cancelled";
  coverage = "partial_known";
  terminal_reason = "CANCELLED";
  omissions = "cancelled_before_completion" ∷ [];
  rest = tt;
}

cancelled_valid :
    validate_continuable_extraction_receipt (λ r d. []) (λ r. r.state) cancelled_receipt "cancelled"
    ≡ []
unfolding validate_continuable_extraction_receipt
cancelled_valid = refl

validate_receipt-IsConsistent_iff_example :
    (validate_continuable_extraction_receipt
        (λ r d. [])
        (λ r. r.state)
        cancelled_receipt
        "cancelled"
      ≡ [])
    ↔ IsConsistent (λ r d. []) (λ r. r.state) cancelled_receipt "cancelled"
validate_receipt-IsConsistent_iff_example =
    validate_receipt-IsConsistent_iff (λ r d. []) (λ r. r.state) cancelled_receipt "cancelled"
