-- ===== src/Core/Execution/Attempts.antt =====
-- Repeated attempts at one execution.
use pdx_artifact_engine.Prelude.{ℕ, zero, suc, ◌+◌, ◌≤◌, [], ◌≡◌, arith, ok, is_empty_iff, Option}
use pdx_artifact_engine.Core.Execution.{
  ExecutionContext, Contract, validate_execution_context, next_execution_attempt, advanced,
}

module _ {J : Type 0} (c : Contract J) where
  -- `n` calls of `next_execution_attempt` that succeeded.
  pub data Attempts (first : ExecutionContext J) : ℕ → ExecutionContext J → Type 0 where
    once : Attempts first zero first
    again :
        {n : ℕ} {last next : ExecutionContext J}
        → Attempts first n last
        → (budget : Option ℕ) → next_execution_attempt c last budget ≡ ok next
        → Attempts first (suc n) next

  pub record Advanced (last next : ExecutionContext J) (budget : Option ℕ) : Type 0 where
    pub result : next ≡ advanced c last budget
    pub valid : validate_execution_context c next ≡ []

  next_attempt-Advanced :
      (last : ExecutionContext J) (budget : Option ℕ) {next : ExecutionContext J}
      → next_execution_attempt c last budget ≡ ok next
      → Advanced last next budget
  unfolding next_execution_attempt
  next_attempt-Advanced last budget {next = next} h = record {
    result = ground arith;
    valid = ground (arith, is_empty_iff (validate_execution_context c (advanced c last budget)));
  }

  -- The context of a later attempt at the same execution.
  pub record SameExecution (first : ExecutionContext J) (n : ℕ) (last : ExecutionContext J)
      : Type 0 where
    pub attempt : last.attempt ≡ first.attempt + n
    pub request_id : last.request_id ≡ first.request_id
    pub correlation_id : last.correlation_id ≡ first.correlation_id
    pub idempotency_key : last.idempotency_key ≡ first.idempotency_key
    pub deadline_at : last.deadline_at ≡ first.deadline_at

  -- After `n` further attempts the number of the attempt has grown by `n`, and the three
  -- identities and the deadline are those of the first.
  pub Attempts-SameExecution :
      {first last : ExecutionContext J} {n : ℕ} → Attempts first n last → SameExecution first n last
  Attempts-SameExecution once = ground arith
  Attempts-SameExecution (again {last = last} r budget e) =
      let step = (next_attempt-Advanced last budget e).result in
      let before = Attempts-SameExecution r in rw step (ground arith)

  -- If the schema bounds the number of an attempt, as the packaged one does, so many further
  -- attempts can succeed at most.
  pub Attempts-bounded :
      {first last : ExecutionContext J} {n : ℕ} (most : ℕ)
      → ((x : ExecutionContext J) → validate_execution_context c x ≡ [] → x.attempt ≤ most)
      → Attempts first (suc n) last
      → first.attempt + suc n ≤ most
  Attempts-bounded {last = last} most bound (again {last = before} r budget e) =
      let same = Attempts-SameExecution (again r budget e) in
      omega (arith, bound last (next_attempt-Advanced before budget e).valid, same.attempt)
