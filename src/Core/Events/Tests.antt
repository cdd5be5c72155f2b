-- ===== src/Core/Events/Tests.antt =====
-- Streams of events at concrete inputs.
use pdx_artifact_engine.Prelude.{
  ℕ, String, List, [], ◌∷◌, ◌≡◌, refl, ok, raise, ◌==◌, string_eq, if◌then◌else◌, ◌↔◌,
}
use pdx_artifact_engine.Core.Events.{
  RunEvent, PlainEvent, run_event, validate_ordered_run_events, event_error, multiple_runs,
  duplicate_identity, not_monotonic, array, text, unbounded_detail, empty_identity, emit,
}
use pdx_artifact_engine.Core.Events.Stream.{IsOrdered, validate-IsOrdered_iff}

abbrev event : String → String → ℕ → RunEvent String
event identity run sequence = record {
  event_id = identity;
  run_id = run;
  sequence = sequence;
  occurred_at = "2026-01-01T00:00:00Z";
  event_type = "STEP_STARTED";
  request_id = "req";
  correlation_id = "cor";
  idempotency_key = "key";
  status = "running";
  detail = [];
}

-- A schema that wants an event identity.
abbrev schema : RunEvent String → List String
schema e = if e.event_id == "" then "event_id: too short" ∷ [] else []

abbrev stream : List (RunEvent String)
stream = event "e1" "r" 1 ∷ event "e2" "r" 4 ∷ []

all_errors :
    validate_ordered_run_events schema (event "e1" "r" 3 ∷ event "" "r" 9 ∷ event "e1" "s" 3 ∷ [])
    ≡ event_error 1 "event_id: too short"
      ∷ multiple_runs 2
      ∷ duplicate_identity 2
      ∷ not_monotonic 2
      ∷ []
unfolding validate_ordered_run_events
all_errors = refl

abbrev plain : PlainEvent String
plain = record {
  event_type = "T";
  request_id = "req";
  correlation_id = "cor";
  idempotency_key = "key";
  status = "ok";
  detail = ("a", text "x") ∷ [];
}

plain_events :
    (run_event plain ≡ ok plain)
    × (run_event (record plain { status = "" }) ≡ raise empty_identity)
    × (run_event (record plain { detail = ("a", array "[]") ∷ [] }) ≡ raise unbounded_detail)
unfolding run_event
plain_events = (refl, refl, refl)

emitted : emit {E = String} "b" (emit "a" []) ≡ "a" ∷ "b" ∷ []
unfolding emit
emitted = refl

validate-IsOrdered_iff_example :
    (validate_ordered_run_events schema stream ≡ []) ↔ IsOrdered schema stream
validate-IsOrdered_iff_example = validate-IsOrdered_iff schema stream
