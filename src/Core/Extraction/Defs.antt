-- ===== src/Core/Extraction/Defs.antt =====
-- The functions of continuable_extraction.py on extractions.
use pdx_artifact_engine.Prelude.{
  is_some, when, ℕ, suc, ◌+◌, String, List, [], ◌∷◌, ◌++◌, Bool, true, false, not, ◌&&◌, Option,
  none, some, Result, ok, raise, ◌>>=◌, ◌>>◌, guard, is_empty, if◌then◌else◌, ltb, ◌==◌, string_eq,
  nat_eq, option_eq, list_eq, length,
}
use pdx_artifact_engine.Core.Extraction.Data.{
  Phase, phase_beq, Disposition, disposition_beq, complete, partial_known, partial_unknown,
  unsupported, other, Ocr, not_evaluated, ocr_priority, reason_completed, unsupported_projection,
  incomplete_projection, is_kernel, AcceptedRange, Coverage, Amounts, Source, Extraction,
  Acceptance, Problem, sequence_gap, count_mismatch, ranges_over, blocks_over, bytes_over,
  retries_over, pending_terminal, authority_mismatch, incomplete_evidence, ExtractionError,
  invalid_state, invalid_transition, key_conflict, terminal_rejects, revision_conflict,
  unexpected_range, unvalidated_complete, unsupported_disposition, unsupported_ocr, key_error,
  Contract,
}

-- `[item["sequence"] for item in ranges] == list(range(start, start + len(ranges)))`
abbrev pub counts_from : ℕ → List AcceptedRange → Bool
counts_from n [] = true
counts_from n (r ∷ rs) = (r.sequence == n) && counts_from (suc n) rs

abbrev pub is_complete : Option Coverage → Bool
is_complete none = false
is_complete (some c) = disposition_beq c.disposition complete

-- `coverage_disposition or (..)`
abbrev pub chosen_disposition : {R : Type 0} → Acceptance R → Disposition
chosen_disposition a =
    let default = if is_some a.next_range then partial_known else partial_unknown in
    elim a.coverage_disposition [
      | none ↦ default
      | some (other t) ↦ if t == "" then default else other t
      | some d ↦ d
    ]

abbrev pub is_known : Disposition → Bool
is_known partial_known = true
is_known partial_unknown = true
is_known unsupported = true
is_known _ = false

-- the three assignments to `accumulated["disposition"]`
abbrev pub accumulate : Disposition → Disposition → Bool → Disposition
accumulate accumulated unsupported terminal = unsupported
accumulate accumulated partial_unknown terminal = partial_unknown
accumulate accumulated partial_known terminal = if terminal then partial_known else accumulated
accumulate accumulated _ terminal = accumulated

-- the block `if ocr_disposition is not None`
unfoldable pub accumulate_ocr : Ocr → Option Ocr → Result ExtractionError Ocr
accumulate_ocr accumulated none = ok accumulated
accumulate_ocr accumulated (some ocr) = elim (ocr_priority ocr) [
  | none ↦ raise unsupported_ocr
  | some new ↦ elim (ocr_priority accumulated) [
    | none ↦ raise key_error
    | some old ↦ ok (if ltb old new then ocr else accumulated)
  ]
]

-- the loop over `accepted_ranges`: the first record with the key, if there is one
unfoldable pub find_key : String → List AcceptedRange → Option AcceptedRange
find_key key [] = none
find_key key (r ∷ rs) = if r.idempotency_key == key then some r else find_key key rs

unfoldable pub check_disposition :
    {R : Type 0} → Acceptance R → Disposition → Result ExtractionError Unit
check_disposition a complete =
    guard
      (not (is_some a.next_range) && is_empty a.omissions && is_some a.semantic_validation_digest)
      unvalidated_complete
check_disposition a disposition = guard (is_known disposition) unsupported_disposition

module _ {R : Type 0} (c : Contract R) where
  unfoldable pub validate_continuable_extraction : Extraction R → List Problem
  validate_continuable_extraction value =
      let errors = c.schema_errors value in
      if not (is_empty errors)
      then errors
      else when (not (counts_from 1 value.accepted_ranges)) sequence_gap
        ++ (when (not (value.consumed.ranges == length value.accepted_ranges)) count_mismatch
            ++ (when (ltb value.limits.ranges value.consumed.ranges) ranges_over
                ++ (when (ltb value.limits.blocks value.consumed.blocks) blocks_over
                    ++ (when (ltb value.limits.bytes value.consumed.bytes) bytes_over
                        ++ (when (ltb value.limits.retries value.consumed.retries) retries_over
                            ++ (when
                                  (phase_beq value.state Phase.pending
                                    && is_some value.terminal_coverage)
                                  pending_terminal
                                ++ (when
                                      (if value.source.capability_verified
                                        then not (is_kernel value.source.capability_authority)
                                        else is_kernel value.source.capability_authority)
                                      authority_mismatch
                                    ++ when
                                        (phase_beq value.state Phase.completed
                                          && not (is_complete value.terminal_coverage))
                                        incomplete_evidence)))))))

  -- `result`, before it is validated
  abbrev pub first_state : Source → R → Amounts → Extraction R
  first_state source first_range limits = record {
    source = source;
    state = Phase.pending;
    revision = 0;
    next_range_descriptor = some first_range;
    next_range_digest = some (c.range_digest first_range);
    accepted_ranges = [];
    aggregate_artifact_digest = c.first_aggregate;
    coverage_accumulator = record {
      disposition = complete;
      omissions = [];
      ocr_disposition = not_evaluated;
    };
    terminal_coverage = none;
    terminal_reason = none;
    consumed = record { ranges = 0; blocks = 0; bytes = 0; retries = 0 };
    limits = limits;
  }

  unfoldable pub create_continuable_extraction :
      Source → R → Amounts → Result ExtractionError (Extraction R)
  create_continuable_extraction source first_range limits =
      let result = first_state source first_range limits in
      do
        guard (is_empty (validate_continuable_extraction result))
            (invalid_state (validate_continuable_extraction result))
        ok result

  -- `canonical_digest(response_range or request_range)`
  abbrev pub response_digest : Acceptance R → String
  response_digest a = c.range_digest (elim a.response_range [
    | none ↦ a.request_range
    | some r ↦ if c.is_empty_range r then a.request_range else r
  ])

  -- `existing == record_identity`
  abbrev pub same_record : Acceptance R → AcceptedRange → Bool
  same_record a r =
      ((r.request_range_digest == c.range_digest a.request_range
          && r.result_artifact_digest == a.result_artifact_digest)
        && (r.result_payload_digest == a.result_payload_digest
            && r.response_range_digest == response_digest a))
      && (disposition_beq r.coverage_disposition (chosen_disposition a)
          && (c.omissions_digest r.omissions == c.omissions_digest a.omissions
              && r.semantic_validation_digest == a.semantic_validation_digest))

  abbrev pub accepted_record : Extraction R → Acceptance R → AcceptedRange
  accepted_record s a = record {
    sequence = length s.accepted_ranges + 1;
    idempotency_key = a.idempotency_key;
    request_range_digest = c.range_digest a.request_range;
    result_artifact_digest = a.result_artifact_digest;
    result_payload_digest = a.result_payload_digest;
    response_range_digest = response_digest a;
    coverage_disposition = chosen_disposition a;
    omissions = a.omissions;
    semantic_validation_digest = a.semantic_validation_digest;
    ocr_disposition = a.ocr_disposition;
    returned_blocks = a.returned_blocks;
    returned_bytes = a.returned_bytes;
    next_range_digest = elim a.next_range [ none ↦ none | some r ↦ some (c.range_digest r) ];
    terminal = not (is_some a.next_range);
  }

  abbrev pub accumulated : Extraction R → Acceptance R → Ocr → Coverage
  accumulated s a ocr = record {
    disposition =
        accumulate s.coverage_accumulator.disposition (chosen_disposition a)
          (not (is_some a.next_range));
    omissions = c.sorted_union s.coverage_accumulator.omissions a.omissions;
    ocr_disposition = ocr;
  }

  -- `disposition == "complete" and accumulated["disposition"] == "complete"`
  abbrev pub completes : Extraction R → Acceptance R → Ocr → Bool
  completes s a ocr =
      disposition_beq (chosen_disposition a) complete
      && disposition_beq (accumulated s a ocr).disposition complete

  -- the state after a range was accepted, before it is validated
  abbrev pub advanced : Extraction R → Acceptance R → Ocr → Extraction R
  advanced s a ocr =
      let terminal = not (is_some a.next_range) in
      record s {
        state =
            if terminal
            then (if completes s a ocr then Phase.completed else Phase.failed)
            else s.state;
        revision = s.revision + 1;
        next_range_descriptor = a.next_range;
        next_range_digest = (accepted_record s a).next_range_digest;
        accepted_ranges = s.accepted_ranges ++ accepted_record s a ∷ [];
        aggregate_artifact_digest =
            c.aggregate_digest s.aggregate_artifact_digest (length s.accepted_ranges + 1)
              a.result_artifact_digest a.result_payload_digest;
        coverage_accumulator = accumulated s a ocr;
        terminal_coverage = if terminal then some (accumulated s a ocr) else s.terminal_coverage;
        terminal_reason =
            if terminal
            then some (
                if completes s a ocr
                then reason_completed
                else if disposition_beq (accumulated s a ocr).disposition unsupported
                then unsupported_projection
                else incomplete_projection)
            else s.terminal_reason;
        consumed = record s.consumed {
          ranges = s.consumed.ranges + 1;
          blocks = s.consumed.blocks + a.returned_blocks;
          bytes = s.consumed.bytes + a.returned_bytes;
        };
      }

  -- what follows the loop
  unfoldable pub accept_new : Extraction R → Acceptance R → Result ExtractionError (Extraction R)
  unfolding check_disposition accumulate_ocr
  accept_new s a = do
    guard (phase_beq s.state Phase.pending) terminal_rejects
    guard (s.revision == a.expected_revision) revision_conflict
    guard (some (c.range_digest a.request_range) == s.next_range_digest) unexpected_range
    check_disposition a (chosen_disposition a)
    ocr ← accumulate_ocr s.coverage_accumulator.ocr_disposition a.ocr_disposition
    guard (is_empty (validate_continuable_extraction (advanced s a ocr)))
        (invalid_transition (validate_continuable_extraction (advanced s a ocr)))
    ok (advanced s a ocr)

  unfoldable pub accept_extraction_range :
      Extraction R → Acceptance R → Result ExtractionError (Extraction R)
  accept_extraction_range s a = do
    guard (is_empty (validate_continuable_extraction s))
        (invalid_state (validate_continuable_extraction s))
    elim (find_key a.idempotency_key s.accepted_ranges) [
      | some r ↦ if same_record a r then ok s else raise key_conflict
      | none ↦ accept_new s a
    ]
