-- ===== src/JobService/Reconcile.antt =====
-- `JobService.reconcile`, with `_current_status` and `_reconcile_finalize`.
use Prim.Native.String.{◌++◌ as append, slice, len}
use pdx_artifact_engine.Prelude.{
  is_some, ℕ, ◌-◌, String, Bool, true, false, ◌&&◌, Option, none, some, DateTime, aware, naive,
  Dict, Value, as_text, if◌then◌else◌, ltb, ◌==◌, string_eq, and_then,
}
use pdx_artifact_engine.Actions.{◌>>=◌, return, throw}
use pdx_artifact_engine.Jobs.Store.{JobRecord}
use pdx_artifact_engine.JobService.World.{
  World, type_error, Outside, Task, store_get, store_release, staging_get_handle,
}
use pdx_artifact_engine.JobService.Requests.{
  Body, JobRequest, validate_request, found_or_404, is_terminal,
}
use pdx_artifact_engine.JobService.Finalize.{staging_value, error_document, finalize}

-- What the clock says at the three places where `reconcile` reads it: `datetime.now(UTC)`, in the unit
-- of `DateTime`, and the seconds that the staging store and the lease test read.
pub record Clock : Type 0 where
  pub datetime_now : ℕ
  pub staging_now : ℕ
  pub unix_now : ℕ

-- `text[:-1] + "+00:00"` where the text ends in `Z`
abbrev pub zulu_offset : String → String
zulu_offset t =
    if slice t (len t - 1) (len t) == "Z" then append (slice t 0 (len t - 1)) "+00:00" else t

-- `_parse_deadline`
abbrev pub parse_deadline : Outside → Option String → Option DateTime
parse_deadline o none = none
parse_deadline o (some v) = if v == "" then none else o.fromisoformat (zulu_offset (o.strip v))

-- `record.lease_expires_unix is not None and record.lease_expires_unix < now_unix`
abbrev pub lease_expired : Option ℕ → ℕ → Bool
lease_expired none now = false
lease_expired (some expires) now = ltb expires now

module _ (others : ℕ → World → World) (o : Outside) where
  -- `deadline is not None and now > deadline`; a time without an offset does not compare
  abbrev pub is_past : Option DateTime → ℕ → Task others Bool
  is_past none now = return false
  is_past (some (aware at)) now = return (ltb at now)
  is_past (some (naive at)) now = throw type_error

  unfoldable pub current_status : String → Task others (Dict Value)
  unfolding store_get
  current_status job_id = do
    found ← store_get others o job_id
    r ← found_or_404 others found
    return r.document

  abbrev pub applied_or_current : String → Option (Dict Value) → Task others (Dict Value)
  applied_or_current job_id none = current_status job_id
  applied_or_current job_id (some applied) = return applied

  unfoldable pub reconcile_finalize : JobRecord → String → Dict Value → Task others (Dict Value)
  unfolding finalize current_status
  reconcile_finalize r state error = do
    applied ←
        finalize others o r state (some error)
          (if r.state == "running" then r.lease_token else none)
    applied_or_current r.job_id applied

  -- `handle`, where it is text, and whether its bytes are still staged
  abbrev pub alive : Option String → ℕ → Task others Bool
  alive none now = return false
  alive (some handle) now = do
    found ← staging_get_handle others o handle now
    return (is_some found)

  abbrev pub release_then_status : JobRecord → String → (now : ℕ) → Task others (Dict Value)
  release_then_status r token now = do
    released ← store_release others o r.job_id token now
    current_status r.job_id

  -- the last test of `reconcile`
  abbrev pub release_if_expired : JobRecord → Option String → (now : ℕ) → Task others (Dict Value)
  release_if_expired r none now = return r.document
  release_if_expired r (some token) now =
      if r.state == "running" && lease_expired r.lease_expires_unix now
      then release_then_status r token now
      else return r.document

  -- what follows the tests of the deadline and of the staged bytes
  abbrev pub reconcile_tested :
      JobRecord → JobRequest → Clock → Bool → Bool → Task others (Dict Value)
  reconcile_tested r body clock true live = reconcile_finalize r "timed_out" (
      error_document "DEADLINE_EXCEEDED" "job deadline elapsed during reconcile" false
        body.request_id body.correlation_id)
  reconcile_tested r body clock false false = reconcile_finalize r "failed" (
      error_document "STAGING_MISSING" "staging bytes missing or expired; fail closed" false
        body.request_id body.correlation_id)
  reconcile_tested r body clock false true = release_if_expired r r.lease_token clock.unix_now

  unfoldable pub reconcile_open : JobRecord → JobRequest → Clock → Task others (Dict Value)
  unfolding staging_get_handle store_release reconcile_finalize current_status
  reconcile_open r body clock = do
    live ← alive (and_then (staging_value r.document) as_text) clock.staging_now
    past ← is_past (parse_deadline o r.deadline_at) clock.datetime_now
    reconcile_tested r body clock past live

  abbrev pub reconcile_found : JobRecord → JobRequest → Clock → Bool → Task others (Dict Value)
  reconcile_found r body clock true = return r.document
  reconcile_found r body clock false = reconcile_open r body clock

  unfoldable pub reconcile : String → Body JobRequest → Clock → Task others (Dict Value)
  unfolding validate_request store_get reconcile_open
  reconcile job_id request clock = do
    body ← validate_request others (λ (b : JobRequest). b.job_id) request job_id
    found ← store_get others o job_id
    r ← found_or_404 others found
    reconcile_found r body clock (is_terminal r.state)
