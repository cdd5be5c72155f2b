-- ===== src/Core/Execution/Tests.antt =====
-- Execution contexts at concrete inputs.
use pdx_artifact_engine.Prelude.{
  ◌+◌, ◌≤◌, String, [], ◌∷◌, ◌≡◌, refl, ok, raise, none, some, ◌==◌, string_eq, leb, if◌then◌else◌,
  ◌↔◌, arith, false, aware, naive,
}
use pdx_artifact_engine.Core.Execution.{
  ExecutionContext, Contract, ContextError, create_execution_context, ensure_execution_allowed,
  next_execution_attempt, validate_execution_context, cancel,
}
use pdx_artifact_engine.Core.Execution.Allowed.{IsAllowed, ensure-IsAllowed_iff}
use pdx_artifact_engine.Core.Execution.Attempts.{
  once, again, SameExecution, Attempts-SameExecution, Attempts-bounded,
}

program : Unit {0}
unfolding create_execution_context ensure_execution_allowed next_execution_attempt
    validate_execution_context cancel
program = tt

-- The schema's bound on attempts, and a clock that reads one text.
abbrev contract : Contract String
contract = record {
  schema_errors = λ x. if leb x.attempt 1000 then [] else "attempt: too large" ∷ [];
  fromisoformat = λ text.
      if text == "noon"
      then some (aware 12)
      else if text == "local noon"
      then some (naive 12)
      else none;
}

abbrev context : ExecutionContext String
context = record {
  request_id = "req";
  correlation_id = "cor";
  idempotency_key = "key";
  attempt = 1;
  deadline_at = some "noon";
  remaining_budget_ms = some 500;
  detail = none;
}

outcomes :
    (ensure_execution_allowed contract context none (aware 11) ≡ ok tt)
    × (ensure_execution_allowed contract context none (aware 12)
        ≡ raise ContextError.deadline_elapsed)
    × (ensure_execution_allowed contract context (some (cancel false)) (aware 11)
        ≡ raise ContextError.was_cancelled)
    × (ensure_execution_allowed contract
          (record context { remaining_budget_ms = some 0 })
          none
          (aware 11)
        ≡ raise ContextError.budget_exhausted)
    × (ensure_execution_allowed contract
          (record context { deadline_at = some "soon" })
          none
          (aware 11)
        ≡ raise ContextError.value_error)
    × (ensure_execution_allowed contract
          (record context { deadline_at = some "local noon" })
          none
          (aware 11)
        ≡ raise ContextError.type_error)
    × (ensure_execution_allowed contract
          (record context { deadline_at = some "local noon" })
          none
          (naive 11)
        ≡ ok tt)
    × (create_execution_context contract context ≡ ok context)
unfolding program
outcomes = (refl, refl, refl, refl, refl, refl, refl, refl)

retried : next_execution_attempt contract context none ≡ ok (record context { attempt = 2 })
unfolding program
retried = refl

within :
    (x : ExecutionContext String) → validate_execution_context contract x ≡ [] → x.attempt ≤ 1000
unfolding program
within x h = ground arith

ensure-IsAllowed_iff_example :
    (ensure_execution_allowed contract context none (aware 11) ≡ ok tt)
    ↔ IsAllowed contract context none (aware 11)
ensure-IsAllowed_iff_example = ensure-IsAllowed_iff contract context none (aware 11)

Attempts-SameExecution_example : SameExecution contract context 1 (record context { attempt = 2 })
Attempts-SameExecution_example = Attempts-SameExecution contract (again once none retried)

Attempts-bounded_example : 1 + 1 ≤ 1000
Attempts-bounded_example =
    Attempts-bounded contract {first = context} {n = 0} 1000 within (again once none retried)
