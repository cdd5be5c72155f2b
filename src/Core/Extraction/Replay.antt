-- ===== src/Core/Extraction/Replay.antt =====
-- Accepting a range again, and accepting one after the end.
use pdx_artifact_engine.Prelude.{
  String, List, [], ◌∷◌, ◌++◌, true, none, some, ok, ◌==◌, ==_refl, string_eq, option_eq,
  option_beq_iff, ◌≡◌, ◌≢◌, refl, sym, ap, ◌∙◌, arith,
}
use pdx_artifact_engine.Core.Extraction.Data.{
  Phase, disposition_beq_refl, AcceptedRange, Extraction, Acceptance, Contract,
}
use pdx_artifact_engine.Core.Extraction.Defs.{
  validate_continuable_extraction, same_record, find_key, accepted_record, accept_extraction_range,
  chosen_disposition, response_digest,
}
use pdx_artifact_engine.Core.Extraction.Steps.{
  Outcome, replayed, accepted, accept-Outcome, Calls, here, call,
}

find_key-append :
    (k : String) (rs ys : List AcceptedRange) (r : AcceptedRange)
    → find_key k rs ≡ some r
    → find_key k (rs ++ ys) ≡ some r
unfolding find_key
find_key-append k [] ys r h = absurd (cc)
find_key-append k (x ∷ rs) ys r h = ground (arith, find_key-append k rs ys r)

find_key-snoc :
    (k : String) (rs : List AcceptedRange) (r : AcceptedRange)
    → find_key k rs ≡ none
    → (r.idempotency_key == k) ≡ true
    → find_key k (rs ++ r ∷ []) ≡ some r
unfolding find_key
find_key-snoc k [] r h same = ground arith
find_key-snoc k (x ∷ rs) r h same = ground (arith, find_key-snoc k rs r)

module _ {R : Type 0} (c : Contract R) where
  -- The extraction holds the record of an acceptance.
  record Holds (s : Extraction R) (a : Acceptance R) : Type 0 where
    at : AcceptedRange
    found : find_key a.idempotency_key s.accepted_ranges ≡ some at
    same : same_record c a at ≡ true

  same_record_own :
      (s : Extraction R) (a : Acceptance R) → same_record c a (accepted_record c s a) ≡ true
  same_record_own s a =
      rw
        (
          ==_refl (c.range_digest a.request_range),
          ==_refl a.result_artifact_digest,
          ==_refl a.result_payload_digest,
          ==_refl (response_digest c a),
          disposition_beq_refl (chosen_disposition a),
          ==_refl (c.omissions_digest a.omissions),
          (option_beq_iff a.semantic_validation_digest a.semantic_validation_digest).1 refl,
        )
        refl

  Outcome-Holds : {s s' : Extraction R} (a : Acceptance R) → Outcome c s a s' → Holds s' a
  Outcome-Holds a (replayed r found same e) = rw e (record { at = r; found = found; same = same })
  Outcome-Holds {s} a (accepted h) = rw h.result (record {
    at = accepted_record c s a;
    found =
        find_key-snoc a.idempotency_key s.accepted_ranges (accepted_record c s a) h.new_key
          (==_refl a.idempotency_key);
    same = same_record_own s a;
  })

  Outcome-keeps :
      {s s' : Extraction R} (a b : Acceptance R) → Outcome c s b s' → Holds s a → Holds s' a
  Outcome-keeps a b (replayed r found same e) k = rw e k
  Outcome-keeps {s} a b (accepted h) k = rw h.result (record {
    at = k.at;
    found =
        find_key-append a.idempotency_key s.accepted_ranges (accepted_record c s b ∷ []) k.at
          k.found;
    same = k.same;
  })

  Outcome-valid :
      {s s' : Extraction R} (a : Acceptance R)
      → validate_continuable_extraction c s ≡ []
      → Outcome c s a s'
      → validate_continuable_extraction c s' ≡ []
  Outcome-valid a v (replayed r found same e) = rw e v
  Outcome-valid a v (accepted h) = h.valid

  Calls-Holds : {s s' : Extraction R} (a : Acceptance R) → Calls c s s' → Holds s a → Holds s' a
  Calls-Holds a here k = k
  Calls-Holds a (call {s = s} calls b h) k =
      Outcome-keeps a b (accept-Outcome c s b h).1 (Calls-Holds a calls k)

  Calls-valid :
      {s s' : Extraction R}
      → validate_continuable_extraction c s ≡ []
      → Calls c s s'
      → validate_continuable_extraction c s' ≡ []
  Calls-valid v here = v
  Calls-valid v (call {s = s} calls b h) =
      Outcome-valid b (Calls-valid v calls) (accept-Outcome c s b h).1

  replay_held :
      (s : Extraction R) (a : Acceptance R)
      → validate_continuable_extraction c s ≡ []
      → Holds s a
      → accept_extraction_range c s a ≡ ok s
  unfolding accept_extraction_range
  replay_held s a v k = rw (v, k.found, k.same) refl

  -- A range that was accepted can be handed in again at any time, after any further calls and after
  -- the end: the call succeeds and changes nothing.
  pub accept_replay :
      (s : Extraction R) (a : Acceptance R) {s' later : Extraction R}
      → accept_extraction_range c s a ≡ ok s'
      → Calls c s' later
      → accept_extraction_range c later a ≡ ok later
  accept_replay s a {later = later} h calls =
      let (valid, outcome) = accept-Outcome c s a h in
      replay_held later a (Calls-valid (Outcome-valid a valid outcome) calls)
        (Calls-Holds a calls (Outcome-Holds a outcome))

  -- An extraction that is not pending never changes again.
  pub ended_stays : {s s' : Extraction R} → s.state ≢ Phase.pending → Calls c s s' → s' ≡ s
  ended_stays ended here = refl
  ended_stays ended (call {s = m} calls a h) = elim (accept-Outcome c m a h).1 [
    | replayed r found same e ↦ e ∙ ended_stays ended calls
    | accepted k ↦
        absurd (
          ended
            (ap (λ (x : Extraction R). x.state) (sym (ended_stays ended calls)) ∙ k.was_pending))
  ]
