-- ===== src/Core/Extraction/Completion.antt =====
-- What the ranges of a completed extraction say.
use pdx_artifact_engine.Prelude.{
  String, elem, string_eq, ◌||◌, is_some, List, [], ◌∷◌, ◌++◌, Bool, true, false, not, ◌&&◌, Option,
  some, ok, all, all-append, if◌then◌else◌, ◌≡◌, ◌⊎◌, inl, inr, refl, arith,
}
use pdx_artifact_engine.Core.Extraction.Data.{
  Phase, Disposition, disposition_beq, complete, partial_known, AcceptedRange, Coverage, Amounts,
  Source, Extraction, Acceptance, Contract,
}
use pdx_artifact_engine.Core.Extraction.Defs.{
  is_complete, is_known, accumulate, chosen_disposition, create_continuable_extraction,
  accepted_record, accumulated, completes,
}
use pdx_artifact_engine.Core.Extraction.Chain.{create_is_first}
use pdx_artifact_engine.Core.Extraction.Omissions.{is_named, IsReported, made-IsReported}
use pdx_artifact_engine.Core.Extraction.Steps.{
  Accepted, replayed, accepted, accept-Outcome, Calls, here, call,
}

-- A range that says how far it has read, and that is not the last. It may name omissions.
abbrev pub is_known_part : AcceptedRange → Bool
is_known_part r = disposition_beq r.coverage_disposition partial_known && not r.terminal

-- A terminal range that says complete, names no omission and has a semantic validation.
pub record IsValidatedEnd (r : AcceptedRange) : Type 0 where
  pub whole : r.coverage_disposition ≡ complete
  pub last : r.terminal ≡ true
  pub nothing_omitted : r.omissions ≡ []
  pub validated : is_some r.semantic_validation_digest ≡ true

-- All ranges but the last are known parts, and the last is a validated end.
pub record EndsValidated (rs : List AcceptedRange) : Type 0 where
  pub parts : List AcceptedRange
  pub end : AcceptedRange
  pub split : rs ≡ parts ++ end ∷ []
  pub known : all is_known_part parts ≡ true
  pub ending : IsValidatedEnd end

-- Coverage that is still complete was complete before, and the new part is known or the end.
accumulate-complete :
    (before d : Disposition) (terminal : Bool)
    → accumulate before d terminal ≡ complete
    → (before ≡ complete) × (((d ≡ partial_known) × (terminal ≡ false)) ⊎ (is_known d ≡ false))
accumulate-complete before d terminal h = ground arith

-- the three phases an acceptance can lead to
next_phase :
    (state : Phase) (terminal completes : Bool)
    → state ≡ Phase.pending
    → (((if terminal then (if completes then Phase.completed else Phase.failed) else state)
          ≡ Phase.pending)
        → terminal ≡ false)
      × (((if terminal then (if completes then Phase.completed else Phase.failed) else state)
            ≡ Phase.completed)
          → (terminal ≡ true) × (completes ≡ true))
next_phase state terminal completes h = (λ e. ground arith, λ e. ground arith)

both_complete :
    (d e : Disposition)
    → (disposition_beq d complete && disposition_beq e complete) ≡ true
    → (d ≡ complete) × (e ≡ complete)
both_complete d e h = (ground arith, ground arith)

terminal_says :
    (coverage : Coverage) (before : Option Coverage) {terminal : Bool}
    → terminal ≡ true
    → coverage.disposition ≡ complete
    → is_complete (if terminal then some coverage else before) ≡ true
terminal_says coverage before e whole = rw (e, whole) refl

-- A coverage that says complete, and has the omissions that the ranges name.
pub record IsFullReport (ranges : List AcceptedRange) (terminal : Option Coverage) : Type 0 where
  pub coverage : Coverage
  pub here : terminal ≡ some coverage
  pub whole : coverage.disposition ≡ complete
  pub named : (omission : String) → elem omission coverage.omissions ≡ is_named omission ranges

module _ {R : Type 0} (c : Contract R)
    (union : (x : String) (xs ys : List String)
      → elem x (c.sorted_union xs ys) ≡ (elem x xs || elem x ys)) where
  record Progress (s : Extraction R) : Type 0 where
    going :
        s.state ≡ Phase.pending
        → s.coverage_accumulator.disposition ≡ complete
        → all is_known_part s.accepted_ranges ≡ true
    done :
        s.state ≡ Phase.completed
        → EndsValidated s.accepted_ranges × (is_complete s.terminal_coverage ≡ true)

  known-snoc :
      {s s' : Extraction R} (a : Acceptance R)
      → Accepted c s a s'
      → not (is_some a.next_range) ≡ false
      → all is_known_part s.accepted_ranges ≡ true
      → ((chosen_disposition a ≡ partial_known) × (not (is_some a.next_range) ≡ false))
        ⊎ (is_known (chosen_disposition a) ≡ false)
      → all is_known_part (s.accepted_ranges ++ accepted_record c s a ∷ []) ≡ true
  known-snoc {s} a h more so_far (inl (known, e)) =
      rw (all-append is_known_part s.accepted_ranges (accepted_record c s a ∷ []), so_far, known, e)
        refl
  known-snoc a h more so_far (inr unknown) = elim h.complete_ends [
    | inl (d, (nothing_next, rest)) ↦ absurd (cc)
    | inr known ↦ absurd (cc)
  ]

  validated_end :
      {s s' : Extraction R} (a : Acceptance R)
      → Accepted c s a s'
      → chosen_disposition a ≡ complete
      → not (is_some a.next_range) ≡ true
      → IsValidatedEnd (accepted_record c s a)
  validated_end a h whole terminal = elim h.complete_ends [
    | inl (d, (nothing_next, (nothing_omitted, validated))) ↦ record {
      whole = whole;
      last = terminal;
      nothing_omitted = nothing_omitted;
      validated = validated;
    }
    | inr known ↦ absurd (cc)
  ]

  Accepted-Progress :
      {s s' : Extraction R} (a : Acceptance R) → Accepted c s a s' → Progress s → Progress s'
  Accepted-Progress {s} a h p =
      let (goes, ends) =
        next_phase s.state (not (is_some a.next_range)) (completes c s a h.ocr) h.was_pending in
      rw h.result (record {
        going = λ going so_far.
            let (before, kind) =
              accumulate-complete s.coverage_accumulator.disposition (chosen_disposition a)
                (not (is_some a.next_range)) so_far in
            known-snoc a h (goes going) (p.going h.was_pending before) kind;
        done = λ done.
            let (terminal, whole) = ends done in
            let (whole_part, whole_sum) =
              both_complete (chosen_disposition a) (accumulated c s a h.ocr).disposition whole in
            let (before, kind) =
              accumulate-complete s.coverage_accumulator.disposition (chosen_disposition a)
                (not (is_some a.next_range)) whole_sum in
            (
              record {
                parts = s.accepted_ranges;
                end = accepted_record c s a;
                split = refl;
                known = p.going h.was_pending before;
                ending = validated_end a h whole_part terminal;
              },
              terminal_says (accumulated c s a h.ocr) s.terminal_coverage terminal whole_sum,
            );
      })

  Calls-Progress : {start s : Extraction R} → Progress start → Calls c start s → Progress s
  Calls-Progress p here = p
  Calls-Progress p (call {s = m} calls a h) = elim (accept-Outcome c m a h).1 [
    | replayed r found same e ↦ rw e (Calls-Progress p calls)
    | accepted k ↦ Accepted-Progress a k (Calls-Progress p calls)
  ]

  create-Progress :
      (source : Source) (first : R) (limits : Amounts) {s : Extraction R}
      → create_continuable_extraction c source first limits ≡ ok s
      → Progress s
  create-Progress source first limits h =
      rw (create_is_first c source first limits h).1
        (record { going = λ going so_far. refl; done = λ done. ground arith })

  reported :
      {s : Extraction R}
      → IsReported c union s
      → s.state ≡ Phase.completed
      → is_complete s.terminal_coverage ≡ true
      → IsFullReport s.accepted_ranges s.terminal_coverage
  reported {s} r done whole = elim r.ended [
    | inl pending ↦ absurd (ground arith)
    | inr ended ↦ record {
      coverage = s.coverage_accumulator;
      here = ended;
      whole = ground arith;
      named = r.named;
    }
  ]

  -- An extraction that was created and then led to the state completed by successful calls has ranges of
  -- this form: each but the last is not terminal and says partial_known, which does not keep it from
  -- naming omissions of its own; the last says complete, is terminal, names no omission and has a
  -- semantic validation. It has a terminal coverage, which says complete, and whose omissions are exactly
  -- those that the ranges name, if the sorted union of two lists has the elements of both.
  pub completed-EndsValidated :
      (source : Source) (first : R) (limits : Amounts) {start s : Extraction R}
      → create_continuable_extraction c source first limits ≡ ok start
      → Calls c start s
      → s.state ≡ Phase.completed
      → EndsValidated s.accepted_ranges × IsFullReport s.accepted_ranges s.terminal_coverage
  completed-EndsValidated source first limits made calls done =
      let (ends, whole) =
        (Calls-Progress (create-Progress source first limits made) calls).done done in
      (ends, reported (made-IsReported c union source first limits made calls) done whole)
