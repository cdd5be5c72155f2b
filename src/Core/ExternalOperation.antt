-- ===== src/Core/ExternalOperation.antt =====
-- packages/pdx_artifact_core/src/pdx_artifact_core/external_operations.py: the lifecycle of one
-- operation that a provider outside the engine carries out.
-- `J` is the type of the JSON payloads that the code copies and never reads. The JSON schema and
-- `datetime.fromisoformat` are the fields of `Contract`.
pub mod Steps
pub mod Lifecycle
mod Tests
use pdx_artifact_engine.Prelude.{
  ℕ, String, List, [], ◌∷◌, Bool, true, false, ◌≡◌, ◌↔◌, refl, arith, Eq, ◌==◌, elem, Option, none,
  some, Result, ok, raise, ◌>>=◌, ◌>>◌, guard, is_empty, if◌then◌else◌, DateTime, is_before, ◌&&◌,
  not,
}
use pdx_artifact_engine.Core.State.{RunState}

pub data Status : Type 0 where
  submitted pending completed failed timed_out cancelled unknown_outcome : Status

abbrev pub status_beq : Status → Status → Bool
status_beq submitted submitted = true
status_beq pending pending = true
status_beq completed completed = true
status_beq failed failed = true
status_beq timed_out timed_out = true
status_beq cancelled cancelled = true
status_beq unknown_outcome unknown_outcome = true
status_beq _ _ = false

pub status_beq_iff : (a b : Status) → (status_beq a b ≡ true) ↔ (a ≡ b)
status_beq_iff a b = ground arith

instance abbrev pub status_eq : Eq Status
status_eq = record { equals = status_beq; equals_iff = status_beq_iff }

-- `_TRANSITIONS`
unfoldable pub transitions : Status → List Status
transitions submitted = pending ∷ completed ∷ failed ∷ timed_out ∷ cancelled ∷ unknown_outcome ∷ []
transitions pending = pending ∷ completed ∷ failed ∷ timed_out ∷ cancelled ∷ unknown_outcome ∷ []
transitions completed = []
transitions failed = []
transitions timed_out = unknown_outcome ∷ []
transitions cancelled = []
transitions unknown_outcome = completed ∷ failed ∷ cancelled ∷ []

-- The error object of an operation; `retryable` may be absent.
pub record Failure (J : Type 0) : Type 0 where
  pub retryable : Option Bool
  pub rest : J

pub record ExternalOperation (J : Type 0) : Type 0 where
  pub operation_id : String
  pub provider : String
  pub execution_mode : String
  pub status : Status
  pub request_id : String
  pub idempotency_key : String
  pub request_digest : String
  pub input_digest : String
  pub submitted_at : String
  pub updated_at : String
  pub reconcile_required : Bool
  pub output_digest : Option String
  pub artifacts : Option (List J)
  pub error : Option (Failure J)

pub data Problem : Type 0 where
  schema : String → Problem
  updated_before_submitted : Problem

pub data Error : Type 0 where
  invalid_operation : List Problem → Error
  invalid_transition : Status → Status → Error
  value_error type_error : Error

-- `schema_errors` are the messages of the packaged schema in the order of their paths, and
-- `fromisoformat` is the date and time with or without an offset, if the text is one.
pub record Contract (J : Type 0) : Type 0 where
  pub schema_errors : ExternalOperation J → List Problem
  pub fromisoformat : String → Option DateTime

pub record Identity : Type 0 where
  pub operation_id : String
  pub provider : String
  pub execution_mode : String
  pub request_id : String
  pub idempotency_key : String
  pub request_digest : String
  pub input_digest : String
  pub submitted_at : String

-- The keyword arguments of `transition_external_operation`.
pub record Update (J : Type 0) : Type 0 where
  pub status : Status
  pub updated_at : String
  pub output_digest : Option String
  pub artifacts : Option (List J)
  pub error : Option (Failure J)
  pub reconcile_required : Bool

module _ {J : Type 0} where
  abbrev pub updated_operation : ExternalOperation J → Update J → ExternalOperation J
  updated_operation operation u = record operation {
    status = u.status;
    updated_at = u.updated_at;
    reconcile_required = u.reconcile_required;
    output_digest = u.output_digest;
    artifacts = u.artifacts;
    error = u.error;
  }

  -- `bool((operation.get("error") or {}).get("retryable"))`
  abbrev pub marked_retryable : ExternalOperation J → Bool
  marked_retryable operation = elim operation.error [
    | none ↦ false
    | some e ↦ elim e.retryable [ none ↦ false | some b ↦ b ]
  ]

abbrev pub run_state_of : Status → RunState
run_state_of submitted = RunState.awaiting_tool
run_state_of pending = RunState.awaiting_tool
run_state_of completed = RunState.running
run_state_of failed = RunState.failed
run_state_of timed_out = RunState.timed_out
run_state_of cancelled = RunState.cancelled
run_state_of unknown_outcome = RunState.blocked

module _ {J : Type 0} (c : Contract J) where
  instant : String → Result Error DateTime
  instant text = elim (c.fromisoformat text) [ none ↦ raise value_error | some t ↦ ok t ]

  unfoldable pub validate_external_operation : ExternalOperation J → Result Error (List Problem)
  unfolding instant
  validate_external_operation operation =
      let errors = c.schema_errors operation in
      if not (is_empty errors) then ok errors else do
        start ← instant operation.submitted_at
        latest ← instant operation.updated_at
        elim (is_before latest start) [
          | none ↦ raise type_error
          | some early ↦ ok (if early then updated_before_submitted ∷ [] else [])
        ]

  -- `errors = validate_external_operation(..)` and the `raise` under `if errors`
  unfoldable pub require_valid : ExternalOperation J → Result Error Unit
  require_valid operation = do
    errors ← validate_external_operation operation
    guard (is_empty errors) (invalid_operation errors)

  unfoldable pub create_external_operation : Identity → Status → Result Error (ExternalOperation J)
  create_external_operation i status =
      let operation : ExternalOperation J = record {
        operation_id = i.operation_id;
        provider = i.provider;
        execution_mode = i.execution_mode;
        status = status;
        request_id = i.request_id;
        idempotency_key = i.idempotency_key;
        request_digest = i.request_digest;
        input_digest = i.input_digest;
        submitted_at = i.submitted_at;
        updated_at = i.submitted_at;
        reconcile_required = false;
        output_digest = none;
        artifacts = none;
        error = none;
      } in
      do require_valid operation; ok operation

  unfoldable pub transition_external_operation :
      ExternalOperation J → Update J → Result Error (ExternalOperation J)
  unfolding transitions
  transition_external_operation operation u = do
    require_valid operation
    guard (elem u.status (transitions operation.status))
        (invalid_transition operation.status u.status)
    require_valid (updated_operation operation u)
    ok (updated_operation operation u)

  unfoldable pub external_operation_run_state : ExternalOperation J → Result Error RunState
  external_operation_run_state operation = do
    require_valid operation
    ok (run_state_of operation.status)

  unfoldable pub external_operation_retry_allowed : ExternalOperation J → Result Error Bool
  external_operation_retry_allowed operation = do
    require_valid operation
    ok (
        elem operation.status (failed ∷ timed_out ∷ [])
        && marked_retryable operation
        && not operation.reconcile_required)
