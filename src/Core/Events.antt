-- ===== src/Core/Events.antt =====
-- packages/pdx_artifact_core/src/pdx_artifact_core/events.py: run events, the check of an ordered
-- stream of them, and the sink in memory.
-- `J` stands for the JSON values that the code copies and never reads.
pub mod Stream
mod Tests
use pdx_artifact_engine.Prelude.{
  when, ℕ, suc, String, List, [], ◌∷◌, ◌++◌, map, Bool, true, false, Option, none, some, Result, ok,
  raise, ◌>>=◌, ◌>>◌, guard, is_empty, if◌then◌else◌, leb, ltb, not, ◌&&◌, ◌||◌, ◌==◌, string_eq,
  elem, all, length, Dict,
}

-- A JSON value, as far as `run_event` looks at it.
pub data Value (J : Type 0) : Type 0 where
  null : Value J
  boolean : Bool → Value J
  number : J → Value J
  text : String → Value J
  array : J → Value J
  object : J → Value J

-- `value is None or isinstance(value, (str, int, float, bool))`
abbrev pub is_scalar : {J : Type 0} → Value J → Bool
is_scalar (array j) = false
is_scalar (object j) = false
is_scalar _ = true

-- What `run_event` returns.
pub record PlainEvent (J : Type 0) : Type 0 where
  pub event_type : String
  pub request_id : String
  pub correlation_id : String
  pub idempotency_key : String
  pub status : String
  pub detail : Dict (Value J)

pub data EventFault : Type 0 where
  empty_identity : EventFault
  unbounded_detail : EventFault
  invalid_event : List String → EventFault

unfoldable pub run_event : {J : Type 0} → PlainEvent J → Result EventFault (PlainEvent J)
run_event e = do
  guard
      (not (e.event_type == "")
        && not (e.request_id == "")
        && not (e.correlation_id == "")
        && not (e.idempotency_key == "")
        && not (e.status == ""))
      empty_identity
  guard (leb (length e.detail) 20 && all (λ field. is_scalar field.1) e.detail) unbounded_detail
  ok e

-- A `pdx_run_event_v1`.
pub record RunEvent (J : Type 0) : Type 0 where
  pub event_id : String
  pub run_id : String
  pub sequence : ℕ
  pub occurred_at : String
  pub event_type : String
  pub request_id : String
  pub correlation_id : String
  pub idempotency_key : String
  pub status : String
  pub detail : Dict J

pub data StreamError : Type 0 where
  event_error : ℕ → String → StreamError
  multiple_runs : ℕ → StreamError
  duplicate_identity : ℕ → StreamError
  not_monotonic : ℕ → StreamError

-- The variables of the loop.
pub record Scan : Type 0 where
  pub errors : List StreamError
  pub event_ids : List String
  pub run_id : Option String
  pub previous_sequence : Option ℕ

abbrev pub scan_start : Scan
scan_start = record { errors = []; event_ids = []; run_id = none; previous_sequence = none }

-- `schema_errors` are the messages of the packaged schema for an event.
module _ {J : Type 0} (schema_errors : RunEvent J → List String) where
  unfoldable pub validate_run_event_v1 : RunEvent J → List String
  validate_run_event_v1 event = schema_errors event

  unfoldable pub run_event_v1 : RunEvent J → Result EventFault (RunEvent J)
  unfolding validate_run_event_v1
  run_event_v1 event = do
    guard (is_empty (validate_run_event_v1 event)) (invalid_event (validate_run_event_v1 event))
    ok event

  -- the messages of the loop's body, past the `continue`
  scan_errors : ℕ → RunEvent J → Scan → List StreamError
  scan_errors index event s =
      elim s.run_id [ none ↦ [] | some r ↦ when (not (event.run_id == r)) (multiple_runs index) ]
      ++ (when (elem event.event_id s.event_ids) (duplicate_identity index)
          ++ elim s.previous_sequence [
            | none ↦ []
            | some p ↦ when (leb event.sequence p) (not_monotonic index)
          ])

  scan_event : ℕ → RunEvent J → Scan → Scan
  unfolding scan_errors validate_run_event_v1
  scan_event index event s =
      let event_errors = validate_run_event_v1 event in
      if not (is_empty event_errors)
      then record s { errors = s.errors ++ map (event_error index) event_errors }
      else record {
        errors = s.errors ++ scan_errors index event s;
        event_ids = event.event_id ∷ s.event_ids;
        run_id = elim s.run_id [ none ↦ some event.run_id | some r ↦ some r ];
        previous_sequence = some event.sequence;
      }

  scan_events : ℕ → List (RunEvent J) → Scan → Scan
  scan_events index [] s = s
  scan_events index (event ∷ events) s = scan_events (suc index) events (scan_event index event s)

  unfoldable pub validate_ordered_run_events : List (RunEvent J) → List StreamError
  unfolding scan_events scan_event
  validate_ordered_run_events events = (scan_events 0 events scan_start).errors

-- `InMemoryEventSink.emit`: the sink is its list of events.
unfoldable pub emit {ℓ} : {E : Type ℓ} → E → List E → List E
emit event sink = sink ++ event ∷ []
