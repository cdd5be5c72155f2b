-- ===== src/JobService/World.antt =====
-- What the service, the workers and all others share, and the calls that read and write it.
use pdx_artifact_engine.Prelude.{
  ℕ, ◌+◌, String, List, Bool, Option, some, Result, ok, raise, Value, DateTime,
}
use pdx_artifact_engine.Actions.{Action}
use pdx_artifact_engine.Jobs.Rows.{JobRow}
use pdx_artifact_engine.Jobs.Store.{
  JobRecord, Json, StoreError, get, get_by_idempotency, insert_job, update, claim_next, holds_lease,
  release_expired_lease,
}
use pdx_artifact_engine.Staging.{
  Bytes, StagingHandle, StagingStore, StagingError, Formats, stage, read_bytes, get_handle, delete,
}

-- The table of jobs, the staged files, and the event `lost` of a worker.
pub record World : Type 0 where
  pub rows : List JobRow
  pub staging : StagingStore
  pub lost : Bool

-- `tick` counts the calls made so far.
pub record Session : Type 0 where
  pub tick : ℕ
  pub world : World

-- `http` is a JobServiceError, with its code, its status and whether a client may retry. The others
-- are exceptions that no code here catches.
pub data ServiceError : Type 0 where
  http : (code : String) (status : ℕ) (retryable : Bool) → ServiceError
  store_error : StoreError → ServiceError
  type_error key_error attribute_error : ServiceError

-- What stands outside the repository: JSON text, SHA-256, base64, times, `str.strip`, `str()` of a
-- JSON value that is not text, whether the text of a number is that of a zero, and JSON as UTF-8 bytes.
pub record Outside : Type 0 where
  pub json : Json
  pub formats : Formats
  pub b64decode : String → Option Bytes
  pub b64encode : Bytes → String
  pub fromisoformat : String → Option DateTime
  pub strip : String → String
  pub str_of : Value → String
  pub is_zero : String → Bool
  pub loads_bytes : Bytes → Option Value
  pub dumps_bytes : Value → Bytes

-- Nobody else acts.
abbrev pub alone : ℕ → World → World
alone n w = w

-- `others` is what all others do to the world before each call: anything, unless a theorem says what.
module _ (others : ℕ → World → World) where
  abbrev pub Task : Type 0 → Type 0
  Task A = Action Session ServiceError A

  -- One call of a store: others may have acted before it, and nobody acts within it.
  abbrev pub call : {A : Type 0} → (World → Result ServiceError A × World) → Task A
  call f s =
      let answer = f (others s.tick s.world) in
      (answer.0, record { tick = s.tick + 1; world = answer.1 })

  unfoldable pub store_holds : String → String → String → Task Bool
  store_holds job_id owner token = call (λ w. (ok (holds_lease w.rows job_id owner token), w))

  -- `lost.is_set()`, and the event set or new
  unfoldable pub lost_is_set : Task Bool
  lost_is_set = call (λ w. (ok w.lost, w))

  unfoldable pub set_lost : Bool → Task Unit
  set_lost b = call (λ w. (ok tt, record w { lost = b }))

  module _ (o : Outside) where
    unfoldable pub store_get : String → Task (Option JobRecord)
    store_get job_id = call (λ w. (ok (get o.json w.rows job_id), w))

    unfoldable pub store_get_by_idempotency : String → Task (Option JobRecord)
    store_get_by_idempotency key = call (λ w. (ok (get_by_idempotency o.json w.rows key), w))

    -- a call that may raise, and then leaves the table alone
    abbrev pub with_rows :
        {A : Type 0} → World → Result StoreError (A × List JobRow) → Result ServiceError A × World
    with_rows w (ok (a, rows)) = (ok a, record w { rows = rows })
    with_rows w (raise e) = (raise (store_error e), w)

    abbrev pub inserted :
        World → Result StoreError (List JobRow) → Result {0} ServiceError Unit × World
    inserted w (ok rows) = (ok tt, record w { rows = rows })
    inserted w (raise e) = (raise (store_error e), w)

    unfoldable pub store_insert : JobRecord → Task Unit
    store_insert r = call (λ w. inserted w (insert_job o.json w.rows r))

    unfoldable pub store_update : JobRecord → Option String → Task Bool
    store_update r expected = call (λ w. with_rows w (update o.json w.rows r expected))

    -- `drawn` is the token of the claim.
    unfoldable pub store_claim :
        (owner : String) (lease_seconds max_attempts now : ℕ) (drawn : String)
        → Task (Option JobRecord)
    store_claim owner lease_seconds max_attempts now drawn = call (λ w.
        let claim = claim_next o.json w.rows owner lease_seconds max_attempts now drawn in
        (ok claim.0, record w { rows = claim.1 }))

    unfoldable pub store_release : String → String → ℕ → Task Bool
    store_release job_id token now =
        call (λ w. with_rows w (release_expired_lease o.json w.rows job_id token now))

    -- `staging.stage(..)` with its ValueError as the HTTP error of the caller
    abbrev pub staged :
        World
        → ServiceError
        → Result StagingError (StagingHandle × StagingStore)
        → Result ServiceError StagingHandle × World
    staged w e (ok (h, st)) = (ok h, record w { staging = st })
    staged w e (raise _) = (raise e, w)

    unfoldable pub staging_stage :
        Bytes → String → String → ℕ → String → ServiceError → Task StagingHandle
    staging_stage payload media_type digest now drawn e =
        call
          (λ w. staged w e (stage o.formats w.staging payload media_type (some digest) now drawn))

    unfoldable pub staging_read : String → ℕ → Task (Option Bytes)
    staging_read handle now = call (λ w.
        let found = read_bytes w.staging handle now in (ok found.0, record w { staging = found.1 }))

    unfoldable pub staging_get_handle : String → ℕ → Task (Option StagingHandle)
    staging_get_handle handle now = call (λ w.
        let found = get_handle w.staging handle now in (ok found.0, record w { staging = found.1 }))

    unfoldable pub staging_delete : String → Task Unit
    staging_delete handle = call (λ w. (ok tt, record w { staging = delete w.staging handle }))
