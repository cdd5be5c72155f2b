-- ===== src/Worker/Processing.antt =====
-- What holds throughout the processing of a claim.
use pdx_artifact_engine.Prelude.{
  ℕ, String, List, Bool, true, false, Option, none, some, Result, ok, raise, Dict, Value, lookup,
  as_text, and_then, if◌then◌else◌, ◌==◌, string_eq, option_eq,
}
use pdx_artifact_engine.Actions.{Action, Keeps, bind-Keeps, return-Keeps, throw-Keeps}
use pdx_artifact_engine.Staging.{Bytes}
use pdx_artifact_engine.Jobs.Results.{ResultItem}
use pdx_artifact_engine.Jobs.Store.{JobRecord}
use pdx_artifact_engine.JobService.World.{World, Session, ServiceError, Outside}
use pdx_artifact_engine.JobService.Requests.{is_terminal}
use pdx_artifact_engine.JobService.Finalize.{handle_of}
use pdx_artifact_engine.Worker.Lease.{JobWorker, error_of}
use pdx_artifact_engine.Worker.Kernel.{KernelClient}
use pdx_artifact_engine.Worker.Process.{
  items_or_raise, complete_if_held, complete_open, complete_latest, complete_unless, publish,
  publish_or_retry, intake_items, output_items, render_items, run_intake, run_render, run_json,
  run_operation, fail, process_payload, process_staged, process_latest, process_unless,
  process_locked,
}
use pdx_artifact_engine.Worker.Invariant.{
  IsInvariant, lease_lost-Keeps, finalize_claim-Keeps, maybe_retry_or_fail-Keeps,
}
use pdx_artifact_engine.Worker.Attempts.{
  try_-Keeps, intake_calls-Keeps, render_calls-Keeps, json_calls-Keeps,
}

-- Either branch of a test keeps what both keep.
if-Keeps :
    {S E A : Type 0} (P : S → Type 0) (b : Bool) {m k : Action S E A}
    → Keeps P m
    → Keeps P k
    → Keeps P (if b then m else k)
if-Keeps P true keep_m keep_k = keep_m
if-Keeps P false keep_m keep_k = keep_k

module _ (others : ℕ → World → World) (o : Outside) (me : JobWorker) (k : KernelClient)
    (token : String) (P : Session → Type 0) (inv : IsInvariant others o token P) where
  items-Keeps :
      (items : Result ServiceError (List ResultItem))
      → Keeps P (items_or_raise others o me k token items)
  items-Keeps (raise e) = throw-Keeps P e
  items-Keeps (ok items) = return-Keeps P items

  complete_if_held-Keeps :
      (r : JobRecord) (items : JobRecord → Result ServiceError (List ResultItem)) (b : Bool)
      → Keeps P (complete_if_held others o me k token r items b)
  complete_if_held-Keeps r items true = return-Keeps P tt
  complete_if_held-Keeps r items false =
      bind-Keeps P (items-Keeps (items r))
        (λ found. finalize_claim-Keeps others o me token P inv _ "completed" none)

  complete_open-Keeps :
      (handle : String) (r : JobRecord) (items : JobRecord → Result ServiceError (List ResultItem))
      (b : Bool)
      → Keeps P (complete_open others o me k token handle r items b)
  complete_open-Keeps handle r items true = inv.deletes handle
  complete_open-Keeps handle r items false =
      bind-Keeps P (lease_lost-Keeps others o me token P inv r.job_id)
        (complete_if_held-Keeps r items)

  complete_latest-Keeps :
      (handle : String) (items : JobRecord → Result ServiceError (List ResultItem))
      (r : Option JobRecord)
      → Keeps P (complete_latest others o me k token handle items r)
  complete_latest-Keeps handle items none = return-Keeps P tt
  complete_latest-Keeps handle items (some r) =
      complete_open-Keeps handle r items (is_terminal r.state)

  complete_unless-Keeps :
      (id handle : String) (items : JobRecord → Result ServiceError (List ResultItem)) (b : Bool)
      → Keeps P (complete_unless others o me k token id handle items b)
  complete_unless-Keeps id handle items true = return-Keeps P tt
  complete_unless-Keeps id handle items false =
      bind-Keeps P (inv.gets id) (complete_latest-Keeps handle items)

  publish-Keeps :
      (id handle : String) (items : JobRecord → Result ServiceError (List ResultItem))
      → Keeps P (publish others o me k token id handle items)
  unfolding publish
  publish-Keeps id handle items =
      bind-Keeps P (lease_lost-Keeps others o me token P inv id)
        (complete_unless-Keeps id handle items)

  publish_or_retry-Keeps :
      {A : Type 0} (r : JobRecord) (handle : String)
      (items : A → JobRecord → Result ServiceError (List ResultItem)) (a : Option A)
      → Keeps P (publish_or_retry others o me k token r handle items a)
  publish_or_retry-Keeps r handle items none = maybe_retry_or_fail-Keeps others o me token P inv r
  publish_or_retry-Keeps r handle items (some a) = publish-Keeps r.job_id handle (items a)

  run_intake-Keeps :
      (r : JobRecord) (handle : String) (payload : Bytes) (digest : String)
      → Keeps P (run_intake others o me k token r handle payload digest)
  unfolding run_intake
  run_intake-Keeps r handle payload digest =
      bind-Keeps P
        (try_-Keeps others o k P inv.asks
          (intake_calls-Keeps others o k P inv.asks r payload digest))
        (publish_or_retry-Keeps r handle (intake_items others o me k token))

  run_render-Keeps :
      (r : JobRecord) (handle : String) (payload : Bytes)
      → Keeps P (run_render others o me k token r handle payload)
  unfolding run_render
  run_render-Keeps r handle payload =
      bind-Keeps P
        (try_-Keeps others o k P inv.asks (render_calls-Keeps others o k P inv.asks payload))
        (publish_or_retry-Keeps r handle (render_items others o me k token))

  run_json-Keeps :
      (call : ℕ → Dict Value → Option Value) (name : String) (r : JobRecord) (handle : String)
      (payload : Bytes)
      → Keeps P (run_json others o me k token call name r handle payload)
  unfolding run_json
  run_json-Keeps call name r handle payload =
      bind-Keeps P
        (try_-Keeps others o k P inv.asks
          (json_calls-Keeps others o k P inv.asks call payload name))
        (publish_or_retry-Keeps r handle (output_items others o me k token))

  run_operation-Keeps :
      (operation : Option String) (r : JobRecord) (handle : String) (payload : Bytes)
      (digest : String)
      → Keeps P (run_operation others o me k token operation r handle payload digest)
  unfolding run_operation
  run_operation-Keeps operation r handle payload digest =
      if-Keeps P (operation == some "intake_document") (run_intake-Keeps r handle payload digest) (
        if-Keeps P (operation == some "render_artifact") (run_render-Keeps r handle payload) (
          if-Keeps P (operation == some "compare_normalized_profiles")
            (run_json-Keeps k.compare_normalized_profiles "normalized_diff_result.json" r handle
              payload)
            (if-Keeps P (operation == some "verify_evidence")
              (run_json-Keeps k.verify_evidence_bundle "evidence_bundle_result.json" r handle
                payload)
              (finalize_claim-Keeps others o me token P inv r "blocked" (
                some (
                  error_of o r "OPERATION_UNSUPPORTED" "worker does not yet execute the operation"
                    false))))))

  fail-Keeps :
      (r : JobRecord) (code message : String) → Keeps P (fail others o me k token r code message)
  fail-Keeps r code message = finalize_claim-Keeps others o me token P inv r "failed" _

  process_payload-Keeps :
      (r : JobRecord) (handle : String) (payload : Option Bytes)
      → Keeps P (process_payload others o me k token r handle payload)
  process_payload-Keeps r handle none = fail-Keeps r _ _
  process_payload-Keeps r handle (some payload) =
      if-Keeps P
        (some (o.formats.sha256 payload) == and_then (lookup "input_digest" r.document) as_text)
        (run_operation-Keeps (and_then (lookup "operation" r.document) as_text) r handle payload
          (o.formats.sha256 payload))
        (fail-Keeps r _ _)

  process_staged-Keeps :
      (r : JobRecord) (now : ℕ) (handle : Option String)
      → Keeps P (process_staged others o me k token r now handle)
  process_staged-Keeps r now none = fail-Keeps r _ _
  process_staged-Keeps r now (some handle) =
      bind-Keeps P (inv.reads handle now) (process_payload-Keeps r handle)

  process_latest-Keeps :
      (now : ℕ) (r : Option JobRecord) → Keeps P (process_latest others o me k token now r)
  process_latest-Keeps now none = return-Keeps P tt
  process_latest-Keeps now (some r) =
      if-Keeps P (is_terminal r.state) (return-Keeps P tt)
        (process_staged-Keeps r now (handle_of o r.document))

  process_unless-Keeps :
      (id : String) (now : ℕ) (b : Bool) → Keeps P (process_unless others o me k token id now b)
  process_unless-Keeps id now true = return-Keeps P tt
  process_unless-Keeps id now false = bind-Keeps P (inv.gets id) (process_latest-Keeps now)

  pub process_locked-Keeps :
      (id : String) (now : ℕ) → Keeps P (process_locked others o me k token id now)
  unfolding process_locked
  process_locked-Keeps id now =
      bind-Keeps P (lease_lost-Keeps others o me token P inv id) (process_unless-Keeps id now)
