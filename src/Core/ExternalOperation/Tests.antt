-- ===== src/Core/ExternalOperation/Tests.antt =====
-- The lifecycle at concrete operations.
use pdx_artifact_engine.Prelude.{
  DateTime, aware, String, [], ◌∷◌, false, ◌≡◌, refl, none, some, ok, raise, Option, ◌==◌, ◌||◌,
  if◌then◌else◌, string_eq,
}
use pdx_artifact_engine.Core.State.{can_transition, run_state_eq}
use pdx_artifact_engine.Core.ExternalOperation.{
  Status, submitted, pending, completed, failed, timed_out, transitions, ExternalOperation,
  Contract, Update, Identity, Error, schema, validate_external_operation, require_valid,
  create_external_operation, run_state_of, transition_external_operation,
  external_operation_retry_allowed, external_operation_run_state,
}
use pdx_artifact_engine.Core.ExternalOperation.Steps.{
  identity, HasTimes, run_state_follows, in_flight,
}
use pdx_artifact_engine.Core.ExternalOperation.Lifecycle

program : Unit {0}
unfolding validate_external_operation require_valid create_external_operation
    transition_external_operation external_operation_retry_allowed external_operation_run_state
    can_transition
program = tt

-- A schema that wants an operation id, and a clock that reads two texts.
abbrev clock : String → Option DateTime
clock text =
    if text == "09:00" then some (aware 9) else if text == "10:00" then some (aware 10) else none

abbrev contract : Contract String
contract = record {
  schema_errors = λ o. if o.operation_id == "" then schema "operation_id: too short" ∷ [] else [];
  fromisoformat = clock;
}

abbrev who : Identity
who = record {
  operation_id = "op-1";
  provider = "render";
  execution_mode = "remote";
  request_id = "req-1";
  idempotency_key = "key-1";
  request_digest = "d1";
  input_digest = "d2";
  submitted_at = "09:00";
}

abbrev at_ten : Status → Update String
at_ten s = record {
  status = s;
  updated_at = "10:00";
  output_digest = none;
  artifacts = none;
  error = none;
  reconcile_required = false;
}

abbrev fresh : ExternalOperation String
fresh = record {
  operation_id = "op-1";
  provider = "render";
  execution_mode = "remote";
  status = submitted;
  request_id = "req-1";
  idempotency_key = "key-1";
  request_digest = "d1";
  input_digest = "d2";
  submitted_at = "09:00";
  updated_at = "09:00";
  reconcile_required = false;
  output_digest = none;
  artifacts = none;
  error = none;
}

abbrev after : Status → ExternalOperation String
after s = record fresh { status = s; updated_at = "10:00" }

created : create_external_operation contract who submitted ≡ ok fresh
unfolding program
created = refl

no_name :
    create_external_operation contract (record who { operation_id = "" }) submitted
    ≡ raise (Error.invalid_operation (schema "operation_id: too short" ∷ []))
unfolding program
no_name = refl

unreadable_time :
    transition_external_operation contract fresh (record (at_ten pending) { updated_at = "soon" })
    ≡ raise Error.value_error
unfolding program
unreadable_time = refl

backwards :
    transition_external_operation contract (after pending) (at_ten submitted)
    ≡ raise (Error.invalid_transition pending submitted)
unfolding program
backwards = refl

retry_needs_flag : external_operation_retry_allowed contract (after failed) ≡ ok false
unfolding program
retry_needs_flag = refl

waits : transition_external_operation contract fresh (at_ten pending) ≡ ok (after pending)
unfolding program
waits = refl

times_out :
    transition_external_operation contract (after pending) (at_ten timed_out) ≡ ok (after timed_out)
unfolding program
times_out = refl

history : Lifecycle.Updates contract fresh (after timed_out)
history =
    Lifecycle.next (Lifecycle.next Lifecycle.here (at_ten pending) waits) (at_ten timed_out)
      times_out

fresh_valid : require_valid contract fresh ≡ ok tt
unfolding program
fresh_valid = refl

Updates-identity_example : identity (after timed_out) ≡ identity fresh
Updates-identity_example = Lifecycle.Updates-identity contract history

settled_stays_example : after completed ≡ after completed
settled_stays_example = Lifecycle.settled_stays contract {o = after completed} refl Lifecycle.here

Updates-HasTimes_example : HasTimes contract (after timed_out) × ("09:00" ≡ fresh.submitted_at)
Updates-HasTimes_example = Lifecycle.Updates-HasTimes contract fresh_valid history

run_state_follows_example :
    (can_transition (run_state_of pending) (run_state_of completed)
      || run_state_of pending == run_state_of completed)
    ≡ in_flight pending
unfolding transitions
run_state_follows_example = run_state_follows pending completed refl
