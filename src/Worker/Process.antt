-- ===== src/Worker/Process.antt =====
-- `_process_locked`, the operations it runs, `_process` and `run_once`.
use pdx_artifact_engine.Prelude.{
  ℕ, String, List, [], ◌∷◌, Bool, true, false, Option, none, some, Result, ok, raise, Dict, lookup,
  Value, string, as_text, as_dict, and_then, if◌then◌else◌, ◌==◌, string_eq, option_eq,
}
use pdx_artifact_engine.Actions.{◌>>=◌, ◌>>◌, return, throw}
use pdx_artifact_engine.Staging.{Bytes}
use pdx_artifact_engine.Jobs.Results.{ResultItem, many}
use pdx_artifact_engine.Jobs.Store.{JobRecord}
use pdx_artifact_engine.JobService.World.{
  World, ServiceError, key_error, type_error, Outside, Task, store_get, store_claim, staging_read,
  staging_delete, set_lost,
}
use pdx_artifact_engine.JobService.Requests.{is_terminal}
use pdx_artifact_engine.JobService.Finalize.{handle_of}
use pdx_artifact_engine.Worker.Lease.{
  JobWorker, error_of, lease_lost, finalize_claim, maybe_retry_or_fail,
}
use pdx_artifact_engine.Worker.Kernel.{KernelClient, try_, intake_calls, render_calls, json_calls}

-- `artifact[key]` for the keys of an artifact, in the order in which they are read
abbrev pub identity_of : Dict Value → Option (Dict Value)
identity_of artifact = and_then (lookup "artifact_id" artifact) λ artifact_id.
    and_then (lookup "uri" artifact) λ uri. and_then (lookup "sha256" artifact) λ sha256.
      and_then (lookup "size_bytes" artifact) λ size_bytes.
        and_then (lookup "media_type" artifact) λ media_type. some (
          ("schema_version", string "prodocux_opaque_artifact_v1")
          ∷ ("artifact_id", artifact_id)
          ∷ ("uri", uri)
          ∷ ("sha256", sha256)
          ∷ ("size_bytes", size_bytes)
          ∷ ("media_type", media_type)
          ∷ [])

-- `_result_item`; `none` is its KeyError.
unfoldable pub result_item : String → String → Dict Value → Option ResultItem
result_item job_id kind artifact = and_then (identity_of artifact) λ identity. some (record {
  schema_version = some "pdx_internal_job_result_v1";
  job_id = some job_id;
  kind = some kind;
  artifact = some identity;
})

-- a missing key as the KeyError that it is
abbrev pub or_key_error : Option (List ResultItem) → Result ServiceError (List ResultItem)
or_key_error none = raise key_error
or_key_error (some items) = ok items

module _ (others : ℕ → World → World) (o : Outside) (me : JobWorker) (k : KernelClient)
    (lease_token : String) where
  abbrev pub items_or_raise : Result ServiceError (List ResultItem) → Task others (List ResultItem)
  items_or_raise (raise e) = throw e
  items_or_raise (ok items) = return items

  abbrev pub some_items : List ResultItem → List (Option ResultItem)
  some_items [] = []
  some_items (item ∷ items) = some item ∷ some_items items

  -- `latest.result = [..]` and `_finalize_claim(.. state="completed" ..)`
  abbrev pub complete_with : JobRecord → List ResultItem → Task others Unit
  complete_with r items =
      finalize_claim others o me lease_token (record r { result = many (some_items items) })
        "completed" none

  abbrev pub complete_if_held :
      JobRecord → (JobRecord → Result ServiceError (List ResultItem)) → Bool → Task others Unit
  complete_if_held r items true = return tt
  complete_if_held r items false = do found ← items_or_raise (items r); complete_with r found

  abbrev pub complete_open :
      String
      → JobRecord
      → (JobRecord → Result ServiceError (List ResultItem))
      → Bool
      → Task others Unit
  complete_open handle r items true = staging_delete others o handle
  complete_open handle r items false = do
    lost ← lease_lost others o me lease_token r.job_id
    complete_if_held r items lost

  abbrev pub complete_latest :
      String
      → (JobRecord → Result ServiceError (List ResultItem))
      → Option JobRecord
      → Task others Unit
  complete_latest handle items none = return tt
  complete_latest handle items (some r) = complete_open handle r items (is_terminal r.state)

  abbrev pub complete_unless :
      String
      → String
      → (JobRecord → Result ServiceError (List ResultItem))
      → Bool
      → Task others Unit
  complete_unless job_id handle items true = return tt
  complete_unless job_id handle items false = do
    latest ← store_get others o job_id
    complete_latest handle items latest

  -- what follows the `try` block of the three `_run_..` methods
  unfoldable pub publish :
      String → String → (JobRecord → Result ServiceError (List ResultItem)) → Task others Unit
  unfolding store_get staging_delete lease_lost finalize_claim
  publish job_id handle items = do
    lost ← lease_lost others o me lease_token job_id
    complete_unless job_id handle items lost

  abbrev pub publish_or_retry :
      {A : Type 0}
      → JobRecord
      → String
      → (A → JobRecord → Result ServiceError (List ResultItem))
      → Option A
      → Task others Unit
  publish_or_retry r handle items none = maybe_retry_or_fail others o me lease_token r
  publish_or_retry r handle items (some a) = publish r.job_id handle (items a)

  abbrev pub intake_items :
      Dict Value × Dict Value → JobRecord → Result ServiceError (List ResultItem)
  intake_items (identity, derived) r = or_key_error (
      and_then (result_item r.job_id "materialized_source" identity) λ source.
        and_then (result_item r.job_id "processing_output" derived)
          λ output. some (source ∷ output ∷ []))

  abbrev pub output_items : Dict Value → JobRecord → Result ServiceError (List ResultItem)
  output_items processing r =
      or_key_error (
        and_then (result_item r.job_id "processing_output" processing) λ output. some (output ∷ []))

  -- an answer that is no object has no keys to read
  abbrev pub object_items : Option (Dict Value) → JobRecord → Result ServiceError (List ResultItem)
  object_items none r = raise type_error
  object_items (some processing) r = output_items processing r

  abbrev pub render_items : Value → JobRecord → Result ServiceError (List ResultItem)
  render_items processing r = object_items (as_dict processing) r

  -- `_run_intake`, `_run_render`, `_run_compare` and `_run_verify`
  unfoldable pub run_intake : JobRecord → String → Bytes → String → Task others Unit
  unfolding intake_calls publish maybe_retry_or_fail
  run_intake r handle payload digest = do
    outcome ← try_ (intake_calls others o k r payload digest)
    publish_or_retry r handle intake_items outcome

  unfoldable pub run_render : JobRecord → String → Bytes → Task others Unit
  unfolding render_calls publish maybe_retry_or_fail
  run_render r handle payload = do
    outcome ← try_ (render_calls others o k payload)
    publish_or_retry r handle render_items outcome

  unfoldable pub run_json :
      (ℕ → Dict Value → Option Value) → String → JobRecord → String → Bytes → Task others Unit
  unfolding json_calls publish maybe_retry_or_fail
  run_json kernel_call output_name r handle payload = do
    outcome ← try_ (json_calls others o k kernel_call payload output_name)
    publish_or_retry r handle output_items outcome

  -- the choice by `operation`
  unfoldable pub run_operation :
      Option String → JobRecord → String → Bytes → String → Task others Unit
  unfolding run_intake run_render run_json finalize_claim
  run_operation operation r handle payload digest =
      if operation == some "intake_document"
      then run_intake r handle payload digest
      else if operation == some "render_artifact"
      then run_render r handle payload
      else if operation == some "compare_normalized_profiles"
      then run_json k.compare_normalized_profiles "normalized_diff_result.json" r handle payload
      else if operation == some "verify_evidence"
      then run_json k.verify_evidence_bundle "evidence_bundle_result.json" r handle payload
      else finalize_claim others o me lease_token r "blocked" (
          some (
            error_of o r "OPERATION_UNSUPPORTED" "worker does not yet execute the operation" false))

  abbrev pub fail : JobRecord → String → String → Task others Unit
  fail r code message =
      finalize_claim others o me lease_token r "failed" (some (error_of o r code message false))

  abbrev pub process_payload : JobRecord → String → Option Bytes → Task others Unit
  process_payload r handle none = fail r "STAGING_MISSING" "staging bytes missing or expired"
  process_payload r handle (some payload) =
      if some (o.formats.sha256 payload) == and_then (lookup "input_digest" r.document) as_text
      then run_operation (and_then (lookup "operation" r.document) as_text) r handle payload
          (o.formats.sha256 payload)
      else fail r "DIGEST_MISMATCH" "staging digest diverged from job"

  abbrev pub process_staged : JobRecord → ℕ → Option String → Task others Unit
  process_staged r now none = fail r "STAGING_MISSING" "staging handle absent"
  process_staged r now (some handle) = do
    payload ← staging_read others o handle now
    process_payload r handle payload

  abbrev pub process_latest : ℕ → Option JobRecord → Task others Unit
  process_latest now none = return tt
  process_latest now (some r) =
      if is_terminal r.state then return tt else process_staged r now (handle_of o r.document)

  abbrev pub process_unless : String → ℕ → Bool → Task others Unit
  process_unless job_id now true = return tt
  process_unless job_id now false = do latest ← store_get others o job_id; process_latest now latest

  -- `_process_locked`; `now` is the time that the staging store reads.
  unfoldable pub process_locked : String → (now : ℕ) → Task others Unit
  unfolding store_get staging_read lease_lost finalize_claim run_operation
  process_locked job_id now = do
    lost ← lease_lost others o me lease_token job_id
    process_unless job_id now lost

module _ (others : ℕ → World → World) (o : Outside) (me : JobWorker) (k : KernelClient) where
  -- `_process`: the event is new, and the thread that renews the lease is among the others.
  abbrev pub process : JobRecord → (now : ℕ) → Option String → Task others Unit
  process r now none = return tt
  process r now (some lease_token) = do
    set_lost others false
    process_locked others o me k lease_token r.job_id now

  abbrev pub process_claimed : (now : ℕ) → Option JobRecord → Task others (Option JobRecord)
  process_claimed now none = return none
  process_claimed now (some r) = do process r now r.lease_token; store_get others o r.job_id

  -- `run_once`, with the time and the token of the claim, and the time that the staging store reads
  unfoldable pub run_once :
      (claim_now : ℕ) (drawn : String) (staging_now : ℕ) → Task others (Option JobRecord)
  unfolding store_claim store_get set_lost process_locked
  run_once claim_now drawn staging_now = do
    claimed ← store_claim others o me.owner me.lease_seconds me.max_attempts claim_now drawn
    process_claimed staging_now claimed
