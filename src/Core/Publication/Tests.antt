-- ===== src/Core/Publication/Tests.antt =====
-- Receipts of an applied publication and of a conflict.
use pdx_artifact_engine.Prelude.{String, [], none, some, ok, ◌≡◌, ◌↔◌, refl}
use pdx_artifact_engine.Core.Publication.{
  Receipt, validate_publication_receipt, create_publication_receipt,
}
use pdx_artifact_engine.Core.Publication.Outcomes.{
  IsHonest, validate-IsHonest_iff, create-IsHonest_iff,
}

abbrev receipt_of : String → String → Receipt Unit
receipt_of status observed = record {
  receipt_id = "r1";
  operation_id = "o1";
  target_id = "t1";
  request_id = "q1";
  idempotency_key = "k1";
  status = status;
  expected_digest = "sha256:new";
  verifier_id = "v1";
  verifier_version = "1";
  recorded_at = "2026-01-01T00:00:00Z";
  before_digest = none;
  observed_digest = some observed;
  artifacts = none;
  detail = none;
  error = none;
}

applied_made :
    create_publication_receipt (λ r. []) (receipt_of "applied" "sha256:new")
    ≡ ok (receipt_of "applied" "sha256:new")
unfolding create_publication_receipt validate_publication_receipt
applied_made = refl

validate-IsHonest_iff_example :
    (validate_publication_receipt (λ r. []) (receipt_of "conflict" "sha256:old") ≡ ok [])
    ↔ IsHonest (λ r. []) (receipt_of "conflict" "sha256:old")
validate-IsHonest_iff_example = validate-IsHonest_iff (λ r. []) (receipt_of "conflict" "sha256:old")

create-IsHonest_iff_example :
    (create_publication_receipt (λ r. []) (receipt_of "applied" "sha256:new")
      ≡ ok (receipt_of "applied" "sha256:new"))
    ↔ IsHonest (λ r. []) (receipt_of "applied" "sha256:new")
create-IsHonest_iff_example = create-IsHonest_iff (λ r. []) (receipt_of "applied" "sha256:new")
