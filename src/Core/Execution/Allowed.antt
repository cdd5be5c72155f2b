-- ===== src/Core/Execution/Allowed.antt =====
-- When `ensure_execution_allowed` lets a dispatch go on.
use pdx_artifact_engine.Prelude.{
  ◌<◌, String, [], ◌≡◌, ◌≢◌, ◌↔◌, refl, subst, arith, true, DateTime, Both, is_before-Both,
  Both-is_before, Option, none, some, ok, is_empty_iff, Option-cases, inl, inr, nat_eq,
}
use pdx_artifact_engine.Core.Execution.{
  ExecutionContext, Contract, CancellationSignal, validate_execution_context, check_deadline,
  ensure_execution_allowed,
}

module _ {J : Type 0} (c : Contract J) where
  -- There is no deadline, or it can be read and lies ahead: both times have an offset, or neither has.
  abbrev pub InTime : Option String → DateTime → Type 0
  InTime none current = Unit
  InTime (some text) current =
      (deadline : DateTime) × (c.fromisoformat text ≡ some deadline) × Both (◌<◌) current deadline

  pub record IsAllowed (context : ExecutionContext J) (cancellation : Option CancellationSignal)
      (current : DateTime) : Type 0 where
    pub valid : validate_execution_context c context ≡ []
    pub not_cancelled : cancellation ≢ some true
    pub has_budget : context.remaining_budget_ms ≢ some 0
    pub in_time : InTime context.deadline_at current

  check_deadline_iff :
      (deadline : Option String) (current : DateTime)
      → (check_deadline c deadline current ≡ ok tt) ↔ InTime deadline current
  unfolding check_deadline
  check_deadline_iff none current = (λ h. tt, λ h. refl)
  check_deadline_iff (some text) current = elim (Option-cases (c.fromisoformat text)) [
    | inl e ↦ (λ h. absurd (ground arith), λ h. absurd (ground arith))
    | inr (d, e) ↦ (
      λ h. (d, e, is_before-Both current d (ground (arith, h, e))),
      λ (d', e', lt).
          let same : d' ≡ d = ground arith in
          let ahead = Both-is_before current d (subst (Both (◌<◌) current) same lt) in ground arith,
    )
  ]

  -- A dispatch may go on exactly when the context is valid, the host has not cancelled it, its
  -- budget is not zero, and its deadline, if it has one, can be read and lies ahead of the current
  -- time, where both times have an offset or neither has: a mixed pair does not compare and stops it.
  pub ensure-IsAllowed_iff :
      (context : ExecutionContext J) (cancellation : Option CancellationSignal) (current : DateTime)
      → (ensure_execution_allowed c context cancellation current ≡ ok tt)
        ↔ IsAllowed context cancellation current
  unfolding ensure_execution_allowed
  ensure-IsAllowed_iff context cancellation current =
      let deadline = check_deadline_iff context.deadline_at current in
      let valid = is_empty_iff (validate_execution_context c context) in
      (
        λ h. record {
          valid = ground arith;
          not_cancelled = ground arith;
          has_budget = ground arith;
          in_time = deadline.0 (ground arith);
        },
        λ a. let t = deadline.1 a.in_time in ground (arith, a.valid, a.not_cancelled, a.has_budget),
      )
