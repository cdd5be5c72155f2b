-- ===== src/Core/Extraction/Steps.antt =====
-- One call of `accept_extraction_range` that succeeds.
use pdx_artifact_engine.Prelude.{
  is_some, [], true, false, none, some, ok, guard_passed, >>-eq-ok, >>=-eq-ok, is_empty,
  is_empty_iff, ◌==◌, string_eq, option_eq, option_beq_iff, nat_eq, ◌≡◌, ◌⊎◌, inl, inr, sym, arith,
  Option-cases,
}
use pdx_artifact_engine.Core.Extraction.Data.{
  Phase, phase_beq, Disposition, complete, Ocr, AcceptedRange, Extraction, Acceptance, Contract,
}
use pdx_artifact_engine.Core.Extraction.Defs.{
  is_known, chosen_disposition, validate_continuable_extraction, same_record, find_key,
  check_disposition, accumulate_ocr, advanced, accept_new, accept_extraction_range,
}

module _ {R : Type 0} (c : Contract R) where
  pub record Accepted (s : Extraction R) (a : Acceptance R) (s' : Extraction R) : Type 0 where
    pub ocr : Ocr
    pub was_pending : s.state ≡ Phase.pending
    pub was_expected : s.next_range_digest ≡ some (c.range_digest a.request_range)
    pub new_key : find_key a.idempotency_key s.accepted_ranges ≡ none
    pub complete_ends :
        ((chosen_disposition a ≡ complete)
          × ((is_some a.next_range ≡ false)
              × ((a.omissions ≡ []) × (is_some a.semantic_validation_digest ≡ true))))
        ⊎ (is_known (chosen_disposition a) ≡ true)
    pub result : s' ≡ advanced c s a ocr
    pub valid : validate_continuable_extraction c s' ≡ []

  -- Two ways to succeed: the key was used for the same range, or the range is accepted.
  pub data Outcome (s : Extraction R) (a : Acceptance R) (s' : Extraction R) : Type 0 where
    replayed :
        (r : AcceptedRange)
        → find_key a.idempotency_key s.accepted_ranges ≡ some r
        → same_record c a r ≡ true
        → s' ≡ s
        → Outcome s a s'
    accepted : Accepted s a s' → Outcome s a s'

  is_pending : (p : Phase) → phase_beq p Phase.pending ≡ true → p ≡ Phase.pending
  is_pending p h = ground arith

  disposition_checked :
      (a : Acceptance R) (d : Disposition)
      → check_disposition a d ≡ ok tt
      → ((d ≡ complete)
          × ((is_some a.next_range ≡ false)
              × ((a.omissions ≡ []) × (is_some a.semantic_validation_digest ≡ true))))
        ⊎ (is_known d ≡ true)
  unfolding check_disposition
  disposition_checked a d h = ground (arith, is_empty_iff a.omissions)

  accept_new-Accepted :
      (s : Extraction R) (a : Acceptance R) {s' : Extraction R}
      → find_key a.idempotency_key s.accepted_ranges ≡ none
      → accept_new c s a ≡ ok s'
      → Accepted s a s'
  unfolding accept_new
  accept_new-Accepted s a {s'} new h =
      let (g1, h1) = guard_passed (phase_beq s.state Phase.pending) _ _ h in
      let (g2, h2) = guard_passed (s.revision == a.expected_revision) _ _ h1 in
      let (g3, h3) =
        guard_passed (some (c.range_digest a.request_range) == s.next_range_digest) _ _ h2 in
      let (g4, h4) = >>-eq-ok (check_disposition a (chosen_disposition a)) _ h3 in
      let (ocr, g5, h5) =
        >>=-eq-ok (accumulate_ocr s.coverage_accumulator.ocr_disposition a.ocr_disposition) _ h4 in
      let (g6, h6) =
        guard_passed (is_empty (validate_continuable_extraction c (advanced c s a ocr))) _ _ h5 in
      let same : advanced c s a ocr ≡ s' = cc h6 in
      record {
        ocr = ocr;
        was_pending = is_pending s.state g1;
        was_expected =
            sym ((option_beq_iff (some (c.range_digest a.request_range)) s.next_range_digest).0 g3);
        new_key = new;
        complete_ends = disposition_checked a (chosen_disposition a) g4;
        result = sym same;
        valid =
            rw (← same)
              ((is_empty_iff (validate_continuable_extraction c (advanced c s a ocr))).0 g6);
      }

  pub accept-Outcome :
      (s : Extraction R) (a : Acceptance R) {s' : Extraction R}
      → accept_extraction_range c s a ≡ ok s'
      → (validate_continuable_extraction c s ≡ []) × Outcome s a s'
  unfolding accept_extraction_range
  accept-Outcome s a {s'} h =
      let (g, h') = guard_passed (is_empty (validate_continuable_extraction c s)) _ _ h in
      (
        (is_empty_iff (validate_continuable_extraction c s)).0 g,
        elim (Option-cases (find_key a.idempotency_key s.accepted_ranges)) [
          | inl new ↦ accepted (accept_new-Accepted s a new (rw new at h'))
          | inr (r, found) ↦ replayed r found (ground arith) (ground arith)
        ],
      )

  -- Calls that succeeded, one after another.
  pub data Calls (start : Extraction R) : Extraction R → Type 0 where
    here : Calls start start
    call :
        {s s' : Extraction R}
        → Calls start s
        → (a : Acceptance R) → accept_extraction_range c s a ≡ ok s'
        → Calls start s'
