-- ===== src/JobService/Create.antt =====
-- `JobService.create`.
use pdx_artifact_engine.Prelude.{
  ℕ, String, [], ◌∷◌, false, Option, none, some, Dict, Value, string, number, object, fields_of,
  length, is_none, ◌==◌, string_eq, nat_eq,
}
use pdx_artifact_engine.Actions.{◌>>=◌, ◌>>◌, return, throw, require}
use pdx_artifact_engine.Staging.{Bytes, StagingHandle}
use pdx_artifact_engine.Jobs.Results.{no_result}
use pdx_artifact_engine.Jobs.Store.{JobRecord}
use pdx_artifact_engine.JobService.World.{
  World, http, Outside, Task, store_get, store_get_by_idempotency, store_insert, staging_stage,
}
use pdx_artifact_engine.JobService.Requests.{Body, JobCreate, validate_body}

-- `handle.as_wire()`
abbrev pub as_wire : StagingHandle → Dict Value
as_wire h =
    ("schema_version", string "pdx_staging_handle_v1")
    ∷ ("handle", string h.handle)
    ∷ ("sha256", string h.sha256)
    ∷ ("size_bytes", number h.size_bytes)
    ∷ ("media_type", string h.media_type)
    ∷ ("expires_at", string h.expires_at)
    ∷ []

-- `status_doc`
abbrev pub status_doc : JobCreate → StagingHandle → Dict Value
status_doc body h =
    ("schema_version", string "pdx_internal_job_status_v1")
    ∷ ("job_id", string body.job_id)
    ∷ ("operation", string body.operation)
    ∷ ("state", string "pending")
    ∷ ("input_digest", string body.input_digest)
    ∷ ("operation_digest", string body.operation_digest)
    ∷ ("idempotency_key", string body.idempotency_key)
    ∷ ("correlation_id", string body.correlation_id)
    ∷ ("request_id", string body.request_id)
    ∷ ("kernel_contract", body.kernel_contract)
    ∷ ("staging", object (fields_of (as_wire h)))
    ∷ []

abbrev pub new_record : JobCreate → StagingHandle → JobRecord
new_record body h = record {
  job_id = body.job_id;
  state = "pending";
  document = status_doc body h;
  idempotency_key = body.idempotency_key;
  operation_digest = body.operation_digest;
  payload_filename = body.filename;
  payload_media_type = body.media_type;
  deadline_at = some body.deadline_at;
  attempt_count = 0;
  lease_owner = none;
  lease_expires_unix = none;
  lease_token = none;
  result = no_result;
}

module _ (others : ℕ → World → World) (o : Outside) where
  -- `base64.b64decode(.., validate=True)`
  abbrev pub decoded_or_400 : Option Bytes → Task others Bytes
  decoded_or_400 none = throw (http "PAYLOAD_INVALID" 400 false)
  decoded_or_400 (some raw) = return raw

  -- what `create` does with a key that is new
  unfoldable pub create_new : JobCreate → (now : ℕ) (drawn : String) → Task others (Dict Value)
  unfolding store_get staging_stage store_insert
  create_new body now drawn = do
    found ← store_get others o body.job_id
    require (is_none found) (http "JOB_EXISTS" 409 false)
    raw ← decoded_or_400 (o.b64decode body.content_b64)
    require (length raw == body.decoded_size_bytes) (http "PAYLOAD_SIZE_MISMATCH" 400 false)
    require (o.formats.sha256 raw == body.input_digest) (http "DIGEST_MISMATCH" 400 false)
    h ←
        staging_stage others o raw body.media_type (o.formats.sha256 raw) now drawn
          (http "STAGING_REJECTED" 400 false)
    store_insert others o (new_record body h)
    return (status_doc body h)

  -- what `create` does with what its key names
  abbrev pub create_found :
      JobCreate → (now : ℕ) (drawn : String) → Option JobRecord → Task others (Dict Value)
  create_found body now drawn (some existing) = do
    require (existing.operation_digest == body.operation_digest)
        (http "IDEMPOTENCY_CONFLICT" 409 false)
    return existing.document
  create_found body now drawn none = create_new body now drawn

  -- `now` and `drawn` are the time and the token of the staging store.
  unfoldable pub create : Body JobCreate → (now : ℕ) (drawn : String) → Task others (Dict Value)
  unfolding validate_body store_get_by_idempotency create_new
  create request now drawn = do
    body ← validate_body others request
    existing ← store_get_by_idempotency others o body.idempotency_key
    create_found body now drawn existing
