-- ===== src/Core/Publication.antt =====
-- packages/pdx_artifact_core/src/pdx_artifact_core/receipts.py: receipts of publications.
use pdx_artifact_engine.Prelude.{
  String, List, [], Bool, true, false, not, ◌||◌, Option, none, some, Result, ok, raise, ◌>>=◌,
  ◌>>◌, guard, is_empty, when, if◌then◌else◌, ◌==◌, string_eq,
}
pub mod Outcomes
mod Tests

-- The keyword arguments of `create_publication_receipt`, which the receipt holds under their names:
-- a key whose argument is None is left out. `J` is the JSON values.
pub record Receipt (J : Type 0) : Type 0 where
  pub receipt_id : String
  pub operation_id : String
  pub target_id : String
  pub request_id : String
  pub idempotency_key : String
  pub status : String
  pub expected_digest : String
  pub verifier_id : String
  pub verifier_version : String
  pub recorded_at : String
  pub before_digest : Option String
  pub observed_digest : Option String
  pub artifacts : Option (List J)
  pub detail : Option J
  pub error : Option J

pub data Problem : Type 0 where
  schema : String → Problem
  must_equal must_differ : Problem

-- `key_error` is the KeyError of `receipt["observed_digest"]`.
pub data ReceiptError : Type 0 where
  invalid_receipt : List Problem → ReceiptError
  key_error : ReceiptError

-- `status in {"applied", "no_op"}`
abbrev pub is_settled : String → Bool
is_settled status = status == "applied" || status == "no_op"

-- what is done with `receipt["observed_digest"]`
abbrev pub with_observed :
    Option String → (String → List Problem) → Result ReceiptError (List Problem)
with_observed none errors_of = raise key_error
with_observed (some observed) errors_of = ok (errors_of observed)

-- the tests of the status
abbrev pub status_errors : {J : Type 0} → Receipt J → Result ReceiptError (List Problem)
status_errors receipt =
    if is_settled receipt.status
    then with_observed receipt.observed_digest
        (λ observed. when (not (observed == receipt.expected_digest)) must_equal)
    else if receipt.status == "conflict"
    then with_observed receipt.observed_digest
        (λ observed. when (observed == receipt.expected_digest) must_differ)
    else ok []

module _ {J : Type 0} (schema_errors : Receipt J → List Problem) where
  unfoldable pub validate_publication_receipt : Receipt J → Result ReceiptError (List Problem)
  validate_publication_receipt receipt =
      let errors = schema_errors receipt in
      if not (is_empty errors) then ok errors else status_errors receipt

  unfoldable pub create_publication_receipt : Receipt J → Result ReceiptError (Receipt J)
  create_publication_receipt receipt = do
    errors ← validate_publication_receipt receipt
    guard (is_empty errors) (invalid_receipt errors)
    ok receipt
