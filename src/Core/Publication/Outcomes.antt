-- ===== src/Core/Publication/Outcomes.antt =====
-- What the status of a receipt says of its digests.
use pdx_artifact_engine.Prelude.{
  String, List, [], true, false, some, ok, is_empty, is_empty_iff, guard_passed, >>=-eq-ok, ◌==◌,
  ==_iff, ==_refl, string_eq, ◌≡◌, ◌≢◌, ◌↔◌, refl, ap, ◌∙◌, arith, Bool-cases, Option-cases, inl,
  inr,
}
use pdx_artifact_engine.Core.Publication.{
  Receipt, Problem, is_settled, status_errors, validate_publication_receipt,
  create_publication_receipt,
}

module _ {J : Type 0} (schema_errors : Receipt J → List Problem) where
  -- A receipt that the schema accepts, and whose status agrees with what was observed: an applied
  -- or idle publication observed the expected digest, and a conflict another one.
  pub record IsHonest (receipt : Receipt J) : Type 0 where
    pub shaped : schema_errors receipt ≡ []
    pub settled :
        is_settled receipt.status ≡ true → receipt.observed_digest ≡ some receipt.expected_digest
    pub conflict :
        receipt.status ≡ "conflict"
        → (observed : String) × (receipt.observed_digest ≡ some observed)
          × (observed ≢ receipt.expected_digest)

  settled_observed :
      (receipt : Receipt J)
      → status_errors receipt ≡ ok []
      → is_settled receipt.status ≡ true
      → receipt.observed_digest ≡ some receipt.expected_digest
  settled_observed receipt h is = elim (Option-cases receipt.observed_digest) [
    | inl missing ↦ absurd (ground arith)
    | inr (observed, found) ↦ ground (arith, ==_iff observed receipt.expected_digest)
  ]

  conflict_is_not_settled : (status : String) → status ≡ "conflict" → is_settled status ≡ false
  conflict_is_not_settled status h = rw h refl

  conflict_observed :
      (receipt : Receipt J)
      → status_errors receipt ≡ ok []
      → receipt.status ≡ "conflict"
      → (observed : String) × (receipt.observed_digest ≡ some observed)
        × (observed ≢ receipt.expected_digest)
  conflict_observed receipt h is =
      let open_end = conflict_is_not_settled receipt.status is in
      let test = (==_iff receipt.status "conflict").1 is in
      elim (Option-cases receipt.observed_digest) [
        | inl missing ↦ absurd (ground arith)
        | inr (observed, found) ↦
            (observed, found, λ e. ground (arith, ==_iff observed receipt.expected_digest))
      ]

  honest_status : (receipt : Receipt J) → IsHonest receipt → status_errors receipt ≡ ok []
  honest_status receipt k = elim (Bool-cases (is_settled receipt.status)) [
    | inl settled ↦ rw (settled, k.settled settled, ==_refl receipt.expected_digest) refl
    | inr not_settled ↦ elim (Bool-cases (receipt.status == "conflict")) [
      | inl conflict ↦
          let (observed, found, differs) =
            k.conflict ((==_iff receipt.status "conflict").0 conflict) in
          ground (arith, ==_iff observed receipt.expected_digest)
      | inr other ↦ ground arith
    ]
  ]

  -- A receipt is found valid exactly where the schema accepts it and its status agrees with the
  -- digests: the observed digest is the expected one where the status is applied or no_op, and
  -- another one where it is conflict.
  pub validate-IsHonest_iff :
      (receipt : Receipt J)
      → (validate_publication_receipt schema_errors receipt ≡ ok []) ↔ IsHonest receipt
  unfolding validate_publication_receipt
  validate-IsHonest_iff receipt =
      let empty = is_empty_iff (schema_errors receipt) in
      (
        λ h.
            let shaped : schema_errors receipt ≡ [] = ground (arith, empty) in
            let rest : status_errors receipt ≡ ok [] = ground arith in
            record {
              shaped = shaped;
              settled = settled_observed receipt rest;
              conflict = conflict_observed receipt rest;
            },
        λ k. rw k.shaped (honest_status receipt k),
      )

  -- A receipt is created as it was asked for exactly where the schema accepts it and its status
  -- agrees with its digests.
  pub create-IsHonest_iff :
      (receipt : Receipt J)
      → (create_publication_receipt schema_errors receipt ≡ ok receipt) ↔ IsHonest receipt
  unfolding create_publication_receipt
  create-IsHonest_iff receipt =
      let valid = validate-IsHonest_iff receipt in
      (
        λ h.
            let (errors, found, rest) =
              >>=-eq-ok (validate_publication_receipt schema_errors receipt) _ h in
            let (g, made) = guard_passed (is_empty errors) _ _ rest in
            valid.0 (found ∙ ap ok ((is_empty_iff errors).0 g)),
        λ k. rw (valid.1 k) refl,
      )
