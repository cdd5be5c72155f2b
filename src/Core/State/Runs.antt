-- ===== src/Core/State/Runs.antt =====
-- Runs of the state machine: the histories whose every step `can_transition` allows.
use mathlib.Core.Path.{subst}
use pdx_artifact_engine.Prelude.{
  ◌≡◌, ◌≢◌, refl, sym, ap, ◌∙◌, true, false, Bool, arith, ◌⊎◌, inl, inr,
}
use pdx_artifact_engine.Core.State.{
  RunState, pending, running, awaiting_tool, awaiting_approval, cancelled, run_state_eq,
  can_transition,
}

-- The states that a run has been in, newest first, from `src` to the present one.
pub data Run (src : RunState) : RunState → Type 0 where
  start : Run src src
  step : {mid dst : RunState} → Run src mid → can_transition mid dst ≡ true → Run src dst

-- A run has come through `via`.
pub data Through (src via : RunState) (dst : RunState) : Type 0 where
  through : Run src via → Run via dst → Through src via dst

extend :
    {src via mid dst : RunState}
    → Through src via mid
    → can_transition mid dst ≡ true
    → Through src via dst
extend (through before after) e = through before (step after e)

-- A state in which the run machine stops.
abbrev pub is_final : RunState → Bool
is_final pending = false
is_final running = false
is_final awaiting_tool = false
is_final awaiting_approval = false
is_final _ = true

final_stuck : (s t : RunState) → is_final s ≡ true → can_transition s t ≡ false
unfolding can_transition
final_stuck s t h = ground arith

-- Where a run from `pending` stands.
data Stands (s : RunState) : Type 0 where
  still_pending : s ≡ pending → Stands s
  was_cancelled : s ≡ cancelled → Stands s
  has_run : Through pending running s → Stands s

from_pending :
    (s t : RunState) → s ≡ pending → can_transition s t ≡ true → (t ≡ running) ⊎ (t ≡ cancelled)
unfolding can_transition
from_pending s t e h = ground arith

Stands-step : {s t : RunState} → Run pending s → Stands s → can_transition s t ≡ true → Stands t
Stands-step {s} {t} r (still_pending e) h = elim (from_pending s t e h) [
  | inl p ↦
      has_run
        (subst (Through pending running) (sym p) (through (subst (Run pending) p (step r h)) start))
  | inr p ↦ was_cancelled p
]
Stands-step {s} {t} r (was_cancelled e) h = absurd (cc (final_stuck s t (ap is_final e), h))
Stands-step r (has_run h) e = has_run (extend h e)

Run-Stands : {s : RunState} → Run pending s → Stands s
Run-Stands start = still_pending refl
Run-Stands (step r e) = Stands-step r (Run-Stands r) e

-- A run that begins in `pending` and stands neither there nor in `cancelled` has been in `running`.
pub run_needs_running :
    {s : RunState} → Run pending s → s ≢ pending → s ≢ cancelled → Through pending running s
run_needs_running {s} r awake alive = elim (Run-Stands r) [
  | still_pending e ↦ absurd (awake e)
  | was_cancelled e ↦ absurd (alive e)
  | has_run h ↦ h
]

-- A run that begins in one of the six final states never leaves it.
pub final_stays : {s t : RunState} → is_final s ≡ true → Run s t → t ≡ s
final_stays f start = refl
final_stays f (step {mid = m} {dst = t} r e) =
    absurd (cc (final_stuck m t (ap is_final (final_stays f r) ∙ f), e))
