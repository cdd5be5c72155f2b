-- ===== src/Core/Execution.antt =====
-- packages/pdx_artifact_core/src/pdx_artifact_core/execution.py: execution contexts, and the checks
-- before a dispatch.
-- `J` stands for the detail object, which the code copies and never reads.
pub mod Allowed
pub mod Attempts
mod Tests
use pdx_artifact_engine.Prelude.{
  ℕ, suc, ◌+◌, String, List, [], ◌∷◌, Bool, true, false, Option, none, some, Result, ok, raise,
  ◌>>=◌, ◌>>◌, guard, is_empty, DateTime, is_before, not, ◌==◌, nat_eq, if◌then◌else◌,
}

pub record ExecutionContext (J : Type 0) : Type 0 where
  pub request_id : String
  pub correlation_id : String
  pub idempotency_key : String
  pub attempt : ℕ
  pub deadline_at : Option String
  pub remaining_budget_ms : Option ℕ
  pub detail : Option J

pub data ContextError : Type 0 where
  invalid_context : List String → ContextError
  was_cancelled : ContextError
  budget_exhausted : ContextError
  deadline_elapsed : ContextError
  value_error type_error : ContextError

-- `schema_errors` are the messages of the packaged schema, and `fromisoformat` is the date and time
-- with or without an offset, if the text is one.
pub record Contract (J : Type 0) : Type 0 where
  pub schema_errors : ExecutionContext J → List String
  pub fromisoformat : String → Option DateTime

-- `ManualCancellationSignal`: the event is set, or not.
abbrev pub CancellationSignal : Type 0
CancellationSignal = Bool

unfoldable pub cancel : CancellationSignal → CancellationSignal
cancel signal = true

abbrev pub is_cancelled : CancellationSignal → Bool
is_cancelled signal = signal

module _ {J : Type 0} (c : Contract J) where
  unfoldable pub validate_execution_context : ExecutionContext J → List String
  validate_execution_context context = c.schema_errors context

  -- `errors = validate_execution_context(..)` and the `raise` under `if errors`
  abbrev pub require_valid : ExecutionContext J → Result ContextError Unit
  require_valid context =
      guard (is_empty (validate_execution_context context))
        (invalid_context (validate_execution_context context))

  unfoldable pub create_execution_context :
      ExecutionContext J → Result ContextError (ExecutionContext J)
  create_execution_context context = do require_valid context; ok context

  -- the deadline test; `current` is `now or datetime.now(UTC)`
  check_deadline : Option String → DateTime → Result ContextError Unit
  check_deadline none current = ok tt
  check_deadline (some text) current = elim (c.fromisoformat text) [
    | none ↦ raise value_error
    | some deadline ↦ elim (is_before current deadline) [
      | none ↦ raise type_error
      | some ahead ↦ guard ahead deadline_elapsed
    ]
  ]

  unfoldable pub ensure_execution_allowed :
      ExecutionContext J → Option CancellationSignal → DateTime → Result ContextError Unit
  unfolding check_deadline
  ensure_execution_allowed context cancellation current = do
    require_valid context
    guard (not (elim cancellation [ none ↦ false | some signal ↦ is_cancelled signal ]))
        was_cancelled
    guard (not (elim context.remaining_budget_ms [ none ↦ false | some ms ↦ ms == 0 ]))
        budget_exhausted
    check_deadline context.deadline_at current

  abbrev pub advanced : ExecutionContext J → Option ℕ → ExecutionContext J
  advanced context budget = record context {
    attempt = context.attempt + 1;
    remaining_budget_ms = elim budget [ none ↦ context.remaining_budget_ms | some ms ↦ some ms ];
  }

  unfoldable pub next_execution_attempt :
      ExecutionContext J → Option ℕ → Result ContextError (ExecutionContext J)
  next_execution_attempt context budget = do
    require_valid context
    require_valid (advanced context budget)
    ok (advanced context budget)
