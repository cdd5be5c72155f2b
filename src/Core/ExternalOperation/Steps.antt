-- ===== src/Core/ExternalOperation/Steps.antt =====
-- One call of `transition_external_operation` that succeeds: what it has checked and what it keeps.
use pdx_artifact_engine.Prelude.{
  ◌≤◌, [], ◌∷◌, Bool, true, false, DateTime, is_before, Both, not_before-Both, ◌∙◌, ap, ◌≡◌, arith,
  elem, some, ok, guard, guard_passed, ◌||◌, ◌==◌, inl, inr, Option-cases, >>-eq-ok, sym,
}
use pdx_artifact_engine.Core.State.{can_transition, run_state_eq}
use pdx_artifact_engine.Core.ExternalOperation.{
  Status, submitted, pending, completed, failed, cancelled, status_eq, transitions,
  ExternalOperation, Contract, Update, Identity, validate_external_operation, require_valid,
  updated_operation, transition_external_operation, run_state_of,
}

-- The fields that no update changes.
abbrev pub identity : {J : Type 0} → ExternalOperation J → Identity
identity o = record {
  operation_id = o.operation_id;
  provider = o.provider;
  execution_mode = o.execution_mode;
  request_id = o.request_id;
  idempotency_key = o.idempotency_key;
  request_digest = o.request_digest;
  input_digest = o.input_digest;
  submitted_at = o.submitted_at;
}

-- The outcome is final: completed, failed or cancelled.
abbrev pub is_settled : Status → Bool
is_settled s = elem s (completed ∷ failed ∷ cancelled ∷ [])

-- The provider has not answered.
abbrev pub in_flight : Status → Bool
in_flight s = elem s (submitted ∷ pending ∷ [])

module _ {J : Type 0} (c : Contract J) where
  pub record Changed (o : ExternalOperation J) (u : Update J) (o' : ExternalOperation J)
      : Type 0 where
    pub was_valid : require_valid c o ≡ ok tt
    pub allowed : elem u.status (transitions o.status) ≡ true
    pub result : o' ≡ updated_operation o u
    pub is_valid : require_valid c o' ≡ ok tt

  pub transition-Changed :
      (o : ExternalOperation J) (u : Update J) {o' : ExternalOperation J}
      → transition_external_operation c o u ≡ ok o'
      → Changed o u o'
  unfolding transition_external_operation
  transition-Changed o u {o' = o'} h =
      let (valid, rest) = >>-eq-ok (require_valid c o) _ h in
      let (allowed, rest') = >>-eq-ok (guard (elem u.status (transitions o.status)) _) _ rest in
      let (valid', same) = >>-eq-ok (require_valid c (updated_operation o u)) _ rest' in
      let e : updated_operation o u ≡ o' = cc same in
      record {
        was_valid = valid;
        allowed = (guard_passed _ _ _ rest).0;
        result = sym e;
        is_valid = rw (← e) valid';
      }

  pub record HasTimes (o : ExternalOperation J) : Type 0 where
    pub start : DateTime
    pub latest : DateTime
    pub start_at : c.fromisoformat o.submitted_at ≡ some start
    pub latest_at : c.fromisoformat o.updated_at ≡ some latest
    pub ordered : Both (◌≤◌) start latest

  pub valid-HasTimes : (o : ExternalOperation J) → require_valid c o ≡ ok tt → HasTimes o
  unfolding require_valid validate_external_operation
  valid-HasTimes o h = elim (Option-cases (c.fromisoformat o.submitted_at)) [
    | inl e ↦ absurd (ground arith)
    | inr (s, e) ↦ elim (Option-cases (c.fromisoformat o.updated_at)) [
      | inl e' ↦ absurd (ground arith)
      | inr (l, e') ↦ elim (Option-cases (is_before l s)) [
        | inl mixed ↦ absurd (ground arith)
        | inr (early, known) ↦
            let not_early : early ≡ false = ground arith in
            record {
              start = s;
              latest = l;
              start_at = e;
              latest_at = e';
              ordered = not_before-Both l s (known ∙ ap some not_early);
            }
      ]
    ]
  ]

-- The run that waits for an operation can follow a change of its status exactly while the operation
-- is in flight: the new status stands for the same run state, or for one that `can_transition`
-- allows. A change out of `timed_out` or `unknown_outcome` stands for a step that it forbids.
pub run_state_follows :
    (s t : Status)
    → elem t (transitions s) ≡ true
    → (can_transition (run_state_of s) (run_state_of t) || run_state_of s == run_state_of t)
      ≡ in_flight s
unfolding transitions can_transition
run_state_follows s t h = ground arith
