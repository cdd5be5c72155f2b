-- ===== src/Core/Extraction/Receipts.antt =====
-- `validate_continuable_extraction_receipt`: what the receipt of an ended extraction must say.
use pdx_artifact_engine.Prelude.{
  String, List, [], ◌++◌, Bool, true, false, not, ◌&&◌, ◌||◌, is_empty, is_empty_iff, when, elem,
  if◌then◌else◌, ◌==◌, ==_iff, string_eq, Bool-cases, inl, inr, ◌≡◌, ◌≢◌, ◌↔◌, arith,
}

-- A receipt without its digest. `J` is what its other keys hold.
pub record Content (J : Type 0) : Type 0 where
  pub state : String
  pub coverage : String
  pub terminal_reason : String
  pub omissions : List String
  pub rest : J

pub data ReceiptProblem : Type 0 where
  receipt_schema : String → ReceiptProblem
  receipt_digest_mismatch completed_incomplete open_complete : ReceiptProblem
  missing_omission : String → ReceiptProblem

-- `terminal_omissions.get(reason, "unaccepted_ranges")`
abbrev pub required_omission : String → String
required_omission reason =
    if reason == "CANCELLED"
    then "cancelled_before_completion"
    else if reason == "TIME_LIMIT"
    then "time_limit_exhausted"
    else if reason == "RETRY_BUDGET_EXHAUSTED"
    then "retry_budget_exhausted"
    else if reason == "SOURCE_TOO_LARGE"
    then "source_too_large"
    else "unaccepted_ranges"

-- `reason in natural_terminal_reasons`
abbrev pub is_natural : String → Bool
is_natural reason = reason == "INCOMPLETE_PROJECTION" || reason == "UNSUPPORTED_PROJECTION"

module _ {J : Type 0} (schema_errors : Content J → String → List ReceiptProblem)
    (digest : Content J → String) where
  unfoldable pub validate_continuable_extraction_receipt : Content J → String → List ReceiptProblem
  validate_continuable_extraction_receipt r observed =
      let errors = schema_errors r observed in
      let is_completed = r.state == "completed" in
      let is_whole = r.coverage == "complete" in
      let required = required_omission r.terminal_reason in
      if not (is_empty errors)
      then errors
      else when (not (digest r == observed)) receipt_digest_mismatch
        ++ (when (is_completed && not is_whole) completed_incomplete
            ++ (when (not is_completed && is_whole) open_complete
                ++ when
                    ((not is_completed && not (is_natural r.terminal_reason))
                      && not (elem required r.omissions))
                    (missing_omission required)))

  -- A receipt that the schema accepts, under the digest of its content: it is completed exactly if
  -- its coverage is complete, and if something else ended it, its omissions say what.
  pub record IsConsistent (r : Content J) (observed : String) : Type 0 where
    pub shaped : schema_errors r observed ≡ []
    pub signed : digest r ≡ observed
    pub complete : (r.state == "completed") ≡ (r.coverage == "complete")
    pub explained :
        r.state ≢ "completed"
        → is_natural r.terminal_reason ≡ false
        → elem (required_omission r.terminal_reason) r.omissions ≡ true

  -- A receipt has no errors exactly where the schema accepts it, its digest is that of its content,
  -- it is completed just if its coverage is complete, and, if it is not completed and its reason is
  -- not one of a projection, its omissions name what the reason requires.
  pub validate_receipt-IsConsistent_iff :
      (r : Content J) (observed : String)
      → (validate_continuable_extraction_receipt r observed ≡ []) ↔ IsConsistent r observed
  unfolding validate_continuable_extraction_receipt
  validate_receipt-IsConsistent_iff r observed =
      let empty = is_empty_iff (schema_errors r observed) in
      let signed = ==_iff (digest r) observed in
      let completed = ==_iff r.state "completed" in
      (
        λ h. record {
          shaped = ground (arith, empty);
          signed = ground (arith, empty, signed);
          complete = ground (arith, empty);
          explained = λ open_end. λ unnatural. ground (arith, empty, completed);
        },
        λ k. elim (Bool-cases (r.state == "completed")) [
          | inl done ↦ ground (arith, empty, signed)
          | inr open_end ↦
              let differs : r.state ≢ "completed" = λ e. cc (open_end, completed.1 e) in
              ground (arith, empty, signed, k.explained differs)
        ],
      )
