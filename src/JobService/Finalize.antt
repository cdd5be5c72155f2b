-- ===== src/JobService/Finalize.antt =====
-- `_finalize`, `get` and `cancel` of JobService.
use pdx_artifact_engine.Prelude.{
  ℕ, String, Bool, true, false, not, Option, none, some, Dict, lookup, insert, remove, Value,
  string, as_dict, fields_of, object, bool, and_then, [], ◌∷◌,
}
use pdx_artifact_engine.Actions.{◌>>=◌, ◌>>◌, return, require}
use pdx_artifact_engine.Jobs.Store.{JobRecord}
use pdx_artifact_engine.JobService.World.{
  World, http, Outside, Task, store_get, store_update, staging_delete,
}
use pdx_artifact_engine.JobService.Requests.{
  Body, JobRequest, validate_request, found_or_404, is_terminal,
}

-- A JSON value as `str` gives it.
abbrev pub str_value : Outside → Value → String
str_value o (string t) = t
str_value o v = o.str_of v

-- `staging["handle"]`, where `staging` is an object that has it
abbrev pub staging_value : Dict Value → Option Value
staging_value document = and_then (and_then (lookup "staging" document) as_dict) (lookup "handle")

abbrev pub handle_of : Outside → Dict Value → Option String
handle_of o document = and_then (staging_value document) (λ v. some (str_value o v))

-- `updated["error"] = error`, or its removal
abbrev pub with_error : Option (Dict Value) → Dict Value → Dict Value
with_error none document = remove "error" document
with_error (some error) document = insert "error" (object (fields_of error)) document

abbrev pub final_document : Dict Value → String → Option (Dict Value) → Dict Value
final_document document state error =
    with_error error (remove "staging" (insert "state" (string state) document))

-- `record` after the assignments of `_finalize`
abbrev pub finalized : JobRecord → String → Option (Dict Value) → JobRecord
finalized r state error = record r {
  state = state;
  document = final_document r.document state error;
  lease_owner = none;
  lease_expires_unix = none;
  lease_token = none;
}

-- a document with the keys of an error
abbrev pub error_document : String → String → Bool → String → String → Dict Value
error_document code message retryable request_id correlation_id =
    ("schema_version", string "pdx_internal_error_v1")
    ∷ ("ok", bool false)
    ∷ ("code", string code)
    ∷ ("message", string message)
    ∷ ("retryable", bool retryable)
    ∷ ("request_id", string request_id)
    ∷ ("correlation_id", string correlation_id)
    ∷ []

module _ (others : ℕ → World → World) (o : Outside) where
  -- what `_finalize` does after its update
  abbrev pub delete_staging : Option String → Task others Unit
  delete_staging none = return tt
  delete_staging (some handle) = staging_delete others o handle

  abbrev pub finish_finalize : Option String → Dict Value → Bool → Task others (Option (Dict Value))
  finish_finalize handle updated false = return none
  finish_finalize handle updated true = do delete_staging handle; return (some updated)

  unfoldable pub finalize :
      JobRecord → String → Option (Dict Value) → Option String → Task others (Option (Dict Value))
  unfolding store_update staging_delete
  finalize r state error expected_lease_token = do
    done ← store_update others o (finalized r state error) expected_lease_token
    finish_finalize (handle_of o r.document) (finalized r state error).document done

  -- `JobService.get`
  unfoldable pub get_status : String → Task others (Dict Value)
  unfolding store_get
  get_status job_id = do
    found ← store_get others o job_id
    r ← found_or_404 others found
    return r.document

  -- `JobService.cancel`
  unfoldable pub cancel : String → Body JobRequest → Task others (Option (Dict Value))
  unfolding validate_request store_get finalize
  cancel job_id request = do
    body ← validate_request others (λ (b : JobRequest). b.job_id) request job_id
    found ← store_get others o job_id
    r ← found_or_404 others found
    require (not (is_terminal r.state)) (http "JOB_TERMINAL" 409 false)
    finalize r "cancelled" none none
