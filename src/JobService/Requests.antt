-- ===== src/JobService/Requests.antt =====
-- The bodies of requests, and the tests that come before each operation.
use pdx_artifact_engine.Prelude.{
  ℕ, String, Bool, false, Option, none, some, Dict, Value, ◌==◌, string_eq, ◌||◌, elem, [], ◌∷◌,
}
use pdx_artifact_engine.Actions.{◌>>◌, return, throw, require}
use pdx_artifact_engine.JobService.World.{World, http, Task}

-- A body that its JSON schema accepts; `none` is one that is no object, or that the schema refuses.
abbrev pub Body : Type 0 → Type 0
Body A = Option A

pub record JobCreate : Type 0 where
  pub job_id : String
  pub operation : String
  pub idempotency_key : String
  pub operation_digest : String
  pub input_digest : String
  pub correlation_id : String
  pub request_id : String
  pub deadline_at : String
  pub kernel_contract : Value
  pub filename : String
  pub media_type : String
  pub content_b64 : String
  pub decoded_size_bytes : ℕ

-- The body of a cancellation or of a reconciliation.
pub record JobRequest : Type 0 where
  pub job_id : String
  pub request_id : String
  pub correlation_id : String

pub record ArtifactRetrieve : Type 0 where
  pub job_id : String
  pub request_id : String
  pub kind : String
  pub artifact : Dict Value

-- `TERMINAL_STATES` of the job store
abbrev pub is_terminal : String → Bool
is_terminal state =
    elem state (
      "completed" ∷ "completed_with_review" ∷ "failed" ∷ "blocked" ∷ "cancelled" ∷ "timed_out" ∷ [])

-- `_RETRIEVAL_TERMINAL_STATES`
abbrev pub is_retrievable : String → Bool
is_retrievable state = state == "completed" || state == "completed_with_review"

module _ (others : ℕ → World → World) where
  -- `_validate_request` without a path
  unfoldable pub validate_body : {A : Type 0} → Body A → Task others A
  validate_body none = throw (http "REQUEST_INVALID" 400 false)
  validate_body (some body) = return body

  -- `_validate_request` with the job id of the path
  unfoldable pub validate_request : {A : Type 0} → (A → String) → Body A → String → Task others A
  validate_request id_of none path_job_id = throw (http "REQUEST_INVALID" 400 false)
  validate_request id_of (some body) path_job_id = do
    require (id_of body == path_job_id) (http "JOB_ID_MISMATCH" 400 false)
    return body

  -- the answer where a job is not found
  abbrev pub found_or_404 : {A : Type 0} → Option A → Task others A
  found_or_404 none = throw (http "JOB_NOT_FOUND" 404 false)
  found_or_404 (some a) = return a
