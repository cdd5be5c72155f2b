-- ===== src/Core/State.antt =====
-- packages/pdx_artifact_core/src/pdx_artifact_core/state.py: the run states and the edges that the
-- runtime may take between them.
pub mod Runs
mod Tests
use pdx_artifact_engine.Prelude.{
  List, [], ◌∷◌, Bool, true, false, ◌≡◌, ◌↔◌, refl, arith, Eq, ◌==◌, elem,
}

pub data RunState : Type 0 where
  pending running awaiting_tool awaiting_approval completed completed_with_review : RunState
  failed blocked cancelled timed_out : RunState

pub RunState-discrete : Discrete RunState
RunState-discrete = hlevel

abbrev pub run_state_beq : RunState → RunState → Bool
run_state_beq pending pending = true
run_state_beq running running = true
run_state_beq awaiting_tool awaiting_tool = true
run_state_beq awaiting_approval awaiting_approval = true
run_state_beq completed completed = true
run_state_beq completed_with_review completed_with_review = true
run_state_beq failed failed = true
run_state_beq blocked blocked = true
run_state_beq cancelled cancelled = true
run_state_beq timed_out timed_out = true
run_state_beq _ _ = false

pub run_state_beq_iff : (a b : RunState) → (run_state_beq a b ≡ true) ↔ (a ≡ b)
run_state_beq_iff a b = ground arith

instance abbrev pub run_state_eq : Eq RunState
run_state_eq = record { equals = run_state_beq; equals_iff = run_state_beq_iff }

-- `_TRANSITIONS`
unfoldable pub allowed_transitions : RunState → List RunState
allowed_transitions pending = running ∷ cancelled ∷ []
allowed_transitions running =
    awaiting_tool ∷ awaiting_approval ∷ completed ∷ completed_with_review ∷ failed ∷ blocked
    ∷ cancelled ∷ timed_out ∷ []
allowed_transitions awaiting_tool = running ∷ failed ∷ blocked ∷ cancelled ∷ timed_out ∷ []
allowed_transitions awaiting_approval =
    running ∷ completed_with_review ∷ failed ∷ blocked ∷ cancelled ∷ timed_out ∷ []
allowed_transitions completed = []
allowed_transitions completed_with_review = []
allowed_transitions failed = []
allowed_transitions blocked = []
allowed_transitions cancelled = []
allowed_transitions timed_out = []

unfoldable pub can_transition : RunState → RunState → Bool
unfolding allowed_transitions
can_transition src dst = elem dst (allowed_transitions src)
