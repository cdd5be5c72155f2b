-- ===== src/Worker/Lease.antt =====
-- The writes of a worker, each behind a test of its lease.
use pdx_artifact_engine.Prelude.{
  ℕ, String, Bool, true, false, Option, none, some, Dict, lookup, insert, Value, string, truthy,
  if◌then◌else◌, ltb,
}
use pdx_artifact_engine.Actions.{◌>>=◌, ◌>>◌, return}
use pdx_artifact_engine.Jobs.Store.{JobRecord}
use pdx_artifact_engine.JobService.World.{
  World, Outside, Task, store_update, store_holds, lost_is_set, set_lost,
}
use pdx_artifact_engine.JobService.Finalize.{finalize, str_value, error_document}

-- The fields of `JobWorker` that are no stores.
pub record JobWorker : Type 0 where
  pub owner : String
  pub lease_seconds : ℕ
  pub max_attempts : ℕ

-- `str(value or default)`
abbrev pub text_or : Outside → Option Value → String → String
text_or o none default = default
text_or o (some v) default = if truthy o.is_zero v then str_value o v else default

-- `_error`
abbrev pub error_of : Outside → JobRecord → String → String → Bool → Dict Value
error_of o r code message retryable =
    error_document code message retryable (text_or o (lookup "request_id" r.document) "unknown")
      (text_or o (lookup "correlation_id" r.document) "unknown")

-- `record` as `_maybe_retry_or_fail` gives it back
abbrev pub given_back : JobRecord → JobRecord
given_back r = record r {
  state = "pending";
  lease_owner = none;
  lease_expires_unix = none;
  lease_token = none;
  document = insert "state" (string "pending") r.document;
}

module _ (others : ℕ → World → World) (o : Outside) (me : JobWorker) (lease_token : String) where
  abbrev pub lost_if : Bool → Task others Bool
  lost_if true = return false
  lost_if false = do set_lost others true; return true

  abbrev pub test_lease : String → Bool → Task others Bool
  test_lease job_id true = return true
  test_lease job_id false = do held ← store_holds others job_id me.owner lease_token; lost_if held

  -- `_lease_lost`
  unfoldable pub lease_lost : String → Task others Bool
  unfolding lost_is_set set_lost store_holds
  lease_lost job_id = do lost ← lost_is_set others; test_lease job_id lost

  abbrev pub lost_unless : {A : Type 0} → Option A → Task others Unit
  lost_unless none = set_lost others true
  lost_unless (some a) = return tt

  abbrev pub finalize_if_held : JobRecord → String → Option (Dict Value) → Bool → Task others Unit
  finalize_if_held r state error true = return tt
  finalize_if_held r state error false = do
    applied ← finalize others o r state error (some lease_token)
    lost_unless applied

  -- `_finalize_claim`
  unfoldable pub finalize_claim : JobRecord → String → Option (Dict Value) → Task others Unit
  unfolding lease_lost finalize set_lost
  finalize_claim r state error = do lost ← lease_lost r.job_id; finalize_if_held r state error lost

  abbrev pub updated_or_lost : Bool → Task others Bool
  updated_or_lost true = return true
  updated_or_lost false = do set_lost others true; return false

  abbrev pub update_if_held : JobRecord → Bool → Task others Bool
  update_if_held r true = return false
  update_if_held r false = do
    done ← store_update others o r (some lease_token)
    updated_or_lost done

  -- `_update_claim`
  unfoldable pub update_claim : JobRecord → Task others Bool
  unfolding lease_lost store_update set_lost
  update_claim r = do lost ← lease_lost r.job_id; update_if_held r lost

  abbrev pub retry_or_fail : JobRecord → Bool → Task others Unit
  retry_or_fail r true = do done ← update_claim (given_back r); return tt
  retry_or_fail r false =
      finalize_claim r "failed"
        (some (error_of o r "KERNEL_CALL_FAILED" "kernel call failed after attempts" false))

  -- `_maybe_retry_or_fail`
  unfoldable pub maybe_retry_or_fail : JobRecord → Task others Unit
  unfolding update_claim finalize_claim
  maybe_retry_or_fail r = retry_or_fail r (ltb r.attempt_count me.max_attempts)
