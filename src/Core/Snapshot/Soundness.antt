-- ===== src/Core/Snapshot/Soundness.antt =====
-- `validate_run_snapshot` against a description of sound snapshots.
use pdx_artifact_engine.Prelude.{
  when, ℕ, suc, String, List, [], ◌∷◌, ◌++◌, map, Bool, true, false, not, ◌&&◌, ◌||◌, ◌≡◌, ◌↔◌,
  refl, ap, sym, ◌∙◌, arith, is_empty, is_empty_iff, ◌==◌, ==_iff, string_eq, elem, select, all,
  subset, overlaps, unique, fresh_from, fresh_from-nil, append-eq-nil_iff, append-cons, Bool-cases,
  inl, inr, not-overlaps-elem,
}
use pdx_artifact_engine.Core.Snapshot.Defs.{
  Contract, StepReceipt, RunSnapshot, Scan, Problem, in_receipt, is_success, validate_step_receipt,
  receipt_errors, scan_receipt, scan_receipts, scan_start, final_errors, validate_run_snapshot,
  snapshot_digest,
}
use mathlib.Core.List.{append-nil, append_assoc}

-- The steps whose receipt says that they succeeded.
abbrev pub successes : {J : Type 0} → List (StepReceipt J) → List String
successes receipts = map (λ r. r.step_id) (select (λ r. is_success r.status) receipts)

successes-cons :
    {J : Type 0} (r : StepReceipt J) (rs : List (StepReceipt J))
    → successes (r ∷ rs) ≡ when (is_success r.status) r.step_id ++ successes rs
successes-cons r rs = elim (Bool-cases (is_success r.status)) [
  | inl good ↦ rw good
  | inr bad ↦ rw bad
]

module _ {J E : Type 0} (c : Contract J E) where
  pub record IsSound (s : RunSnapshot J E) : Type 0 where
    pub shape : c.snapshot_schema s ≡ []
    pub own_run : s.checkpoint.run_id ≡ s.run_id
    pub receipts_valid : all (λ r. is_empty (validate_step_receipt c r)) s.step_receipts ≡ true
    pub receipts_distinct : unique (map (λ r. r.receipt_id) s.step_receipts) ≡ true
    pub steps_distinct : unique (map (λ r. r.step_id) s.step_receipts) ≡ true
    pub receipts_of_run : all (λ r. r.run_id == s.run_id) s.step_receipts ≡ true
    pub disjoint : overlaps s.checkpoint.completed_step_ids s.checkpoint.pending_step_ids ≡ false
    pub steps_known :
        all
          (λ r.
            elem r.step_id s.checkpoint.completed_step_ids
            || elem r.step_id s.checkpoint.pending_step_ids)
          s.step_receipts
        ≡ true
    pub succeeded : subset (successes s.step_receipts) s.checkpoint.completed_step_ids ≡ true
    pub completed : subset s.checkpoint.completed_step_ids (successes s.step_receipts) ≡ true
    pub digest : s.snapshot_digest ≡ snapshot_digest c s.content

  -- What the loop asks of the receipts that are left.
  abbrev rest_ok : String → List String → List String → List (StepReceipt J) → Bool
  rest_ok run_id receipt_ids step_ids rs =
      (all (λ r. is_empty (validate_step_receipt c r)) rs && all (λ r. r.run_id == run_id) rs)
      && (fresh_from receipt_ids (map (λ r. r.receipt_id) rs)
          && fresh_from step_ids (map (λ r. r.step_id) rs))

  map-eq-nil_iff : (i : ℕ) (xs : List Problem) → (map (in_receipt i) xs ≡ []) ↔ (is_empty xs ≡ true)
  map-eq-nil_iff i [] = ground arith
  map-eq-nil_iff i (x ∷ xs) = ground arith

  receipt_errors-eq-nil_iff :
      (run_id : String) (i : ℕ) (r : StepReceipt J) (s : Scan)
      → (receipt_errors c run_id i r s ≡ []) ↔ (
          ((is_empty (validate_step_receipt c r) && r.run_id == run_id)
            && (not (elem r.receipt_id s.receipt_ids) && not (elem r.step_id s.step_ids)))
          ≡ true)
  unfolding receipt_errors
  receipt_errors-eq-nil_iff run_id i r s = ground (
    arith,
    map-eq-nil_iff i (validate_step_receipt c r),
    append-eq-nil_iff (map (in_receipt i) (validate_step_receipt c r)) (
        when (elem r.receipt_id s.receipt_ids) (Problem.duplicate_receipt i)
        ++ (when (elem r.step_id s.step_ids) (Problem.duplicate_step i)
            ++ when (not (r.run_id == run_id)) (Problem.receipt_run_mismatch i))),
  )

  scan_receipts-errors :
      (run_id : String) (i : ℕ) (rs : List (StepReceipt J)) (s : Scan)
      → ((scan_receipts c run_id i rs s).errors ≡ [])
        ↔ ((s.errors ≡ []) × (rest_ok run_id s.receipt_ids s.step_ids rs ≡ true))
  unfolding scan_receipts
  scan_receipts-errors run_id i [] s = ground arith
  scan_receipts-errors run_id i (r ∷ rs) s = ground (
    arith,
    scan_receipts-errors run_id (suc i) rs (scan_receipt c run_id i r s),
    append-eq-nil_iff s.errors (receipt_errors c run_id i r s),
    receipt_errors-eq-nil_iff run_id i r s,
  )

  scan_receipts-step_ids :
      (run_id : String) (i : ℕ) (rs : List (StepReceipt J)) (s : Scan)
      → (scan_receipts c run_id i rs s).step_ids ≡ s.step_ids ++ map (λ r. r.step_id) rs
  unfolding scan_receipts
  scan_receipts-step_ids run_id i [] s = sym (append-nil s.step_ids)
  scan_receipts-step_ids run_id i (r ∷ rs) s =
      scan_receipts-step_ids run_id (suc i) rs (scan_receipt c run_id i r s)
      ∙ append-cons s.step_ids r.step_id (map (λ x. x.step_id) rs)

  scan_receipts-successful :
      (run_id : String) (i : ℕ) (rs : List (StepReceipt J)) (s : Scan)
      → (scan_receipts c run_id i rs s).successful_steps ≡ s.successful_steps ++ successes rs
  unfolding scan_receipts
  scan_receipts-successful run_id i [] s = sym (append-nil s.successful_steps)
  scan_receipts-successful run_id i (r ∷ rs) s =
      scan_receipts-successful run_id (suc i) rs (scan_receipt c run_id i r s)
      ∙ (append_assoc s.successful_steps (when (is_success r.status) r.step_id) (successes rs)
          ∙ ap (λ l. s.successful_steps ++ l) (sym (successes-cons r rs)))

  select_neither_iff :
      (done waiting : List String) (rs : List (StepReceipt J))
      → (is_empty
          (select (λ i. not (elem i done) && not (elem i waiting)) (map (λ r. r.step_id) rs)))
        ≡ all (λ r. elem r.step_id done || elem r.step_id waiting) rs
  select_neither_iff done waiting [] = refl
  select_neither_iff done waiting (r ∷ rs) = ground (arith, select_neither_iff done waiting rs)

  not-overlaps-of_subset :
      (xs ys zs : List String)
      → subset xs ys ≡ true
      → overlaps ys zs ≡ false
      → overlaps xs zs ≡ false
  not-overlaps-of_subset [] ys zs h d = refl
  not-overlaps-of_subset (x ∷ xs) ys zs h d =
      ground (arith, not-overlaps-elem ys zs x d, not-overlaps-of_subset xs ys zs)

  -- The last tests pass exactly when the rest of a sound snapshot holds.
  final_iff :
      (s : RunSnapshot J E) (scan : Scan)
      → (final_errors c s scan ≡ []) ↔ (
          ((not (overlaps s.checkpoint.completed_step_ids s.checkpoint.pending_step_ids)
              && is_empty (
                  select
                    (λ i.
                      not (elem i s.checkpoint.completed_step_ids)
                      && not (elem i s.checkpoint.pending_step_ids))
                    scan.step_ids))
            && ((subset scan.successful_steps s.checkpoint.completed_step_ids
                  && subset s.checkpoint.completed_step_ids scan.successful_steps)
                && (not (overlaps scan.successful_steps s.checkpoint.pending_step_ids)
                    && s.snapshot_digest == snapshot_digest c s.content)))
          ≡ true)
  unfolding final_errors
  final_iff s scan = ground arith

  -- The scan of all the receipts.
  abbrev scanned : RunSnapshot J E → Scan
  scanned s = scan_receipts c s.run_id 0 s.step_receipts (scan_start s)

  loop_iff :
      (s : RunSnapshot J E)
      → ((scanned s).errors ≡ []) ↔ (
          (s.checkpoint.run_id ≡ s.run_id)
          × (((all (λ r. is_empty (validate_step_receipt c r)) s.step_receipts
                  && all (λ r. r.run_id == s.run_id) s.step_receipts)
                && (unique (map (λ r. r.receipt_id) s.step_receipts)
                    && unique (map (λ r. r.step_id) s.step_receipts)))
              ≡ true))
  loop_iff s = ground (
    arith,
    scan_receipts-errors s.run_id 0 s.step_receipts (scan_start s),
    ==_iff s.checkpoint.run_id s.run_id,
    fresh_from-nil (map (λ (r : StepReceipt J). r.receipt_id) s.step_receipts),
    fresh_from-nil (map (λ (r : StepReceipt J). r.step_id) s.step_receipts),
  )

  tests_iff :
      (s : RunSnapshot J E)
      → (final_errors c s (scanned s) ≡ []) ↔ (
          ((not (overlaps s.checkpoint.completed_step_ids s.checkpoint.pending_step_ids)
              && all
                  (λ r.
                    elem r.step_id s.checkpoint.completed_step_ids
                    || elem r.step_id s.checkpoint.pending_step_ids)
                  s.step_receipts)
            && ((subset (successes s.step_receipts) s.checkpoint.completed_step_ids
                  && subset s.checkpoint.completed_step_ids (successes s.step_receipts))
                && (not (overlaps (successes s.step_receipts) s.checkpoint.pending_step_ids)
                    && s.snapshot_digest == snapshot_digest c s.content)))
          ≡ true)
  tests_iff s =
      rw
        (
          ← select_neither_iff s.checkpoint.completed_step_ids s.checkpoint.pending_step_ids
              s.step_receipts,
          ← scan_receipts-step_ids s.run_id 0 s.step_receipts (scan_start s),
          ← scan_receipts-successful s.run_id 0 s.step_receipts (scan_start s),
        )
        (final_iff s (scanned s))

  -- No error is found exactly in the sound snapshots: the shape is right, checkpoint and receipts
  -- are of the snapshot's run, every receipt is valid, no receipt and no step occurs twice, no step
  -- is both completed and pending, every receipt is for one of these steps, the completed steps are
  -- exactly those with a receipt of success, and the digest is that of the content.
  pub validate_snapshot_iff : (s : RunSnapshot J E) → (validate_run_snapshot c s ≡ []) ↔ IsSound s
  unfolding validate_run_snapshot
  validate_snapshot_iff s =
      let shape = is_empty_iff (c.snapshot_schema s) in
      let parts = append-eq-nil_iff (scanned s).errors (final_errors c s (scanned s)) in
      let loop = loop_iff s in
      let tests = tests_iff s in
      let digest = ==_iff s.snapshot_digest (snapshot_digest c s.content) in
      (
        λ h.
            let none : c.snapshot_schema s ≡ [] = ground arith in
            let a = loop.0 (parts.0 (ground arith)).0 in
            let b = tests.0 (parts.0 (ground arith)).1 in
            record {
              shape = none;
              own_run = a.0;
              receipts_valid = ground arith;
              receipts_distinct = ground arith;
              steps_distinct = ground arith;
              receipts_of_run = ground arith;
              disjoint = ground arith;
              steps_known = ground arith;
              succeeded = ground arith;
              completed = ground arith;
              digest = ground arith;
            },
        λ i.
            let apart =
              not-overlaps-of_subset (successes s.step_receipts) s.checkpoint.completed_step_ids
                s.checkpoint.pending_step_ids i.succeeded i.disjoint in
            let a = loop.1 (i.own_run, ground arith) in
            let b = tests.1 (ground arith) in ground (arith, i.shape, parts.1 (a, b)),
      )
