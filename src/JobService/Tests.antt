-- ===== src/JobService/Tests.antt =====
-- A job that is created, cancelled, or completed and fetched.
use pdx_artifact_engine.Prelude.{
  ℕ, ◌+◌, String, [], ◌∷◌, false, none, some, ok, raise, Dict, lookup, insert, remove, Value, null,
  number, string, object, fields_of, nat_eq, string_eq, ◌≡◌, ◌⊎◌, refl,
}
use pdx_artifact_engine.Actions.{◌>>=◌, ◌>>◌, return, throw, require}
use pdx_artifact_engine.Staging.{Bytes, StagingHandle, stage, delete, meta_of}
use pdx_artifact_engine.Jobs.Results.{ResultItem, many}
use pdx_artifact_engine.Jobs.Store.{
  JobRecord, get, get_by_idempotency, insert_job, update, dump_result, row_of, row_to_record,
}
use pdx_artifact_engine.JobService.World.{
  World, Session, http, Outside, alone, store_get, store_get_by_idempotency, store_insert,
  store_update, staging_stage, staging_delete,
}
use pdx_artifact_engine.JobService.Requests.{
  JobCreate, JobRequest, ArtifactRetrieve, validate_body, validate_request,
}
use pdx_artifact_engine.JobService.Create.{status_doc, new_record, create, create_new}
use pdx_artifact_engine.JobService.Finalize.{finalize, cancel}
use pdx_artifact_engine.JobService.Retrieve.{KernelAnswer, answered, ArtifactContent}
use pdx_artifact_engine.JobService.Created.{IsCreated, create-IsCreated}
use pdx_artifact_engine.JobService.Unchanged.{create_error-rows}
use pdx_artifact_engine.JobService.Cancelled.{once, IsCancelled, cancel-IsCancelled}

abbrev pdf : Bytes
pdf = 37 ∷ 80 ∷ 68 ∷ []

-- the artifact in the result of the completed job
abbrev artifact : Dict Value
artifact =
    ("schema_version", string "prodocux_opaque_artifact_v1")
    ∷ ("artifact_id", string "a1")
    ∷ ("uri", string "artifact://derived/op/out.json")
    ∷ ("sha256", string "sha256:pdf")
    ∷ ("size_bytes", number 3)
    ∷ ("media_type", string "application/pdf")
    ∷ []

abbrev output : ResultItem
output = record {
  schema_version = some "pdx_internal_job_result_v1";
  job_id = some "j1";
  kind = some "processing_output";
  artifact = some artifact;
}

abbrev o : Outside
o = record {
  json = record {
    dumps = λ d. "{}";
    loads = λ t. ("staging", object (fields_of (("handle", string "stg_1") ∷ []))) ∷ [];
    dump_items = λ items. "[]";
    load_items = λ t. many (some output ∷ []);
    str = λ n. "1";
  };
  formats = record { sha256 = λ b. "sha256:pdf"; rfc3339 = λ t. "later" };
  b64decode = λ t. some pdf;
  b64encode = λ b. "JVBE";
  fromisoformat = λ t. none;
  strip = λ t. t;
  str_of = λ v. "";
  is_zero = λ t. false;
  loads_bytes = λ b. none;
  dumps_bytes = λ v. [];
}

abbrev empty_world : World
empty_world = record {
  rows = [];
  staging = record { ttl_seconds = 60; max_decoded_bytes = 1000; payloads = []; metas = [] };
  lost = false;
}

abbrev start : Session
start = record { tick = 0; world = empty_world }

abbrev body : JobCreate
body = record {
  job_id = "j1";
  operation = "intake_document";
  idempotency_key = "k1";
  operation_digest = "sha256:o";
  input_digest = "sha256:pdf";
  correlation_id = "c1";
  request_id = "r1";
  deadline_at = "later";
  kernel_contract = null;
  filename = "report.pdf";
  media_type = "application/pdf";
  content_b64 = "JVBE";
  decoded_size_bytes = 3;
}

abbrev handle : StagingHandle
handle = (meta_of o.formats pdf "application/pdf" "stg_1" 70).wire

abbrev created_world : World
created_world = record empty_world {
  rows = row_of o.json (new_record body handle) none ∷ [];
  staging = record empty_world.staging {
    payloads = ("stg_1", pdf) ∷ [];
    metas = ("stg_1", meta_of o.formats pdf "application/pdf" "stg_1" 70) ∷ [];
  };
}

created :
    create alone o (some body) 10 "1" start
    ≡ (ok (status_doc body handle), record { tick = 4; world = created_world })
unfolding create validate_body store_get_by_idempotency get_by_idempotency create_new store_get get
    staging_stage stage store_insert insert_job dump_result insert ◌>>=◌ ◌>>◌ return throw require
created = refl

create-IsCreated_example :
    (b : JobCreate) × (some body ≡ some b)
    × (((r : JobRecord) × (get_by_idempotency o.json [] b.idempotency_key ≡ some r)
          × (r.operation_digest ≡ b.operation_digest)
          × (status_doc body handle ≡ r.document)
          × (created_world ≡ empty_world))
        ⊎ ((get_by_idempotency o.json [] b.idempotency_key ≡ none)
            × IsCreated o empty_world created_world b 10 "1" (status_doc body handle)))
create-IsCreated_example =
    create-IsCreated o (some body) 10 "1" start (record { tick = 4; world = created_world }) created

-- the same key again, for another operation
conflict :
    create alone o
      (some (record body { operation_digest = "sha256:p" }))
      20
      "2"
      (record { tick = 4; world = created_world })
    ≡ (raise (http "IDEMPOTENCY_CONFLICT" 409 false), record { tick = 5; world = created_world })
unfolding create validate_body store_get_by_idempotency get_by_idempotency row_to_record ◌>>=◌ ◌>>◌
    return throw require
conflict = refl

create_error-rows_example : created_world.rows ≡ created_world.rows
create_error-rows_example =
    create_error-rows o (some (record body { operation_digest = "sha256:p" })) 20 "2"
      (record { tick = 4; world = created_world }) (record { tick = 5; world = created_world })
      conflict

abbrev request : JobRequest
request = record { job_id = "j1"; request_id = "r2"; correlation_id = "c1" }

-- What a worker does between the read and the write of a cancellation: it completes the job.
abbrev completes : World → World
completes w = record w {
  rows =
      record (row_of o.json (new_record body handle) (some "[]")) {
        state = "completed";
        attempt_count = 1;
      }
      ∷ [];
}

abbrev cancelled_document : Dict Value
cancelled_document = ("state", string "cancelled") ∷ []

abbrev cancelled_world : World
cancelled_world = record empty_world {
  rows = record (row_of o.json (new_record body handle) none) { state = "cancelled" } ∷ [];
}

abbrev read_first : Session
read_first = record { tick = 4; world = created_world }

cancelled :
    cancel (once (4 + 1) completes) o "j1" (some request) read_first
    ≡ (ok (some cancelled_document), record { tick = 7; world = cancelled_world })
unfolding cancel finalize validate_request store_get get row_to_record store_update update
    dump_result staging_delete delete insert remove lookup ◌>>=◌ ◌>>◌ return throw require
cancelled = refl

cancel-IsCancelled_example :
    IsCancelled o created_world (completes created_world) cancelled_world "j1" cancelled_document
cancel-IsCancelled_example =
    cancel-IsCancelled o completes "j1" (some request) read_first
      (record { tick = 7; world = cancelled_world }) cancelled

abbrev fetch : ArtifactRetrieve
fetch = record { job_id = "j1"; request_id = "r3"; kind = "processing_output"; artifact = artifact }

abbrev kernel : String → Dict Value → KernelAnswer
kernel id a = answered (
    ("content_b64", string "JVBE")
    ∷ ("artifact", object (fields_of artifact))
    ∷ ("sha256", string "sha256:pdf")
    ∷ ("size_bytes", number 3)
    ∷ ("media_type", string "application/pdf")
    ∷ [])

abbrev fetched : ArtifactContent
fetched = record {
  job_id = "j1";
  kind = "processing_output";
  artifact = artifact;
  bytes = record {
    media_type = string "application/pdf";
    size_bytes = 3;
    sha256 = "sha256:pdf";
    content_b64 = "JVBE";
  };
}

abbrev completed_session : ℕ → Session
completed_session n = record { tick = n; world = completes created_world }
