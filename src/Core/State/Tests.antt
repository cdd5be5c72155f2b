-- ===== src/Core/State/Tests.antt =====
-- Runs of the state machine at concrete states.
use pdx_artifact_engine.Prelude.{◌≡◌, refl}
use pdx_artifact_engine.Core.State.{
  pending, running, awaiting_approval, completed, completed_with_review, can_transition,
}
use pdx_artifact_engine.Core.State.Runs.{Run, start, step, Through, run_needs_running, final_stays}

reviewed : Run pending completed_with_review
unfolding can_transition
reviewed = step {mid = awaiting_approval} (step {mid = running} (step start refl) refl) refl

run_needs_running_example : Through pending running completed_with_review
run_needs_running_example = run_needs_running reviewed (λ e. cc) (λ e. cc)

final_stays_example : completed ≡ completed
final_stays_example = final_stays {s = completed} refl start
