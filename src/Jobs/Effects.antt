-- ===== src/Jobs/Effects.antt =====
-- The table after each method, where it succeeds.
use pdx_artifact_engine.Prelude.{
  ℕ, ◌+◌, String, List, [], ◌∷◌, ◌++◌, Bool, false, ◌&&◌, not, Option, any, Option-cases, ◌==◌,
  string_eq, option_eq, nat_eq, ◌≡◌, sym, arith, Bool-cases, inl, inr, ◌⊎◌, ok, guard_passed,
  >>=-eq-ok,
}
use pdx_artifact_engine.Jobs.Rows.{
  JobRow, select_first, update_where, rowcount, has_id, has_key, may_take, is_offered, may_update,
  holds, may_release,
}
use pdx_artifact_engine.Jobs.Store.{
  JobRecord, Json, row_to_record, claimed, take, claim_next, insert_job, row_of, overwrite, update,
  renewed, dump_result, renew_lease, release_expired_lease, holds_content, released,
  pending_document,
}

module _ (c : Json) where
  pub inserted_rows :
      (rows : List JobRow) (r : JobRecord) {rows' : List JobRow}
      → insert_job c rows r ≡ ok rows'
      → (any (has_id r.job_id) rows ≡ false)
        × (any (has_key r.idempotency_key) rows ≡ false)
        × ((json : Option String) × (rows' ≡ rows ++ row_of c r json ∷ []))
  unfolding insert_job
  inserted_rows rows r {rows'} h =
      let (g1, h1) = guard_passed (not (holds_content (c.dumps r.document))) _ _ h in
      let (json, g2, h2) = >>=-eq-ok (dump_result c r) _ h1 in
      let (g3, h3) =
        guard_passed
          (not (any (has_id r.job_id) rows) && not (any (has_key r.idempotency_key) rows)) _ _ h2 in
      let same : rows ++ row_of c r json ∷ [] ≡ rows' = cc h3 in
      (ground arith, ground arith, (json, sym same))

  pub updated_rows :
      (rows : List JobRow) (r : JobRecord) (expected : Option String) {done : Bool}
      {rows' : List JobRow}
      → update c rows r expected ≡ ok (done, rows')
      → (json : Option String) × (done ≡ (rowcount (may_update r.job_id expected) rows == 1))
        × (rows' ≡ update_where (may_update r.job_id expected) (overwrite c r json) rows)
  unfolding update
  updated_rows rows r expected h =
      let (g1, h1) = guard_passed (not (holds_content (c.dumps r.document))) _ _ h in
      let (json, g2, h2) = >>=-eq-ok (dump_result c r) _ h1 in (json, cc h2, cc h2)

  pub renewed_rows :
      (rows : List JobRow) (job_id owner token : String) (lease_seconds now : ℕ) {done : Bool}
      {rows' : List JobRow}
      → renew_lease rows job_id owner token lease_seconds now ≡ (done, rows')
      → rows' ≡ update_where (holds job_id owner token) (renewed (now + lease_seconds)) rows
  unfolding renew_lease
  renewed_rows rows job_id owner token lease_seconds now h = cc h

  pub claimed_rows :
      (rows : List JobRow) (owner : String) (lease_seconds max_attempts now : ℕ) (drawn : String)
      {taken : Option JobRecord} {rows' : List JobRow}
      → claim_next c rows owner lease_seconds max_attempts now drawn ≡ (taken, rows')
      → (rows' ≡ rows)
        ⊎ ((row : JobRow) × (r : JobRecord) × (rows'
              ≡ update_where (may_take row.job_id row.attempt_count now) (take c r) rows))
  unfolding claim_next
  claimed_rows rows owner lease_seconds max_attempts now drawn h =
      elim (Option-cases (select_first (is_offered now max_attempts) rows)) [
        | inl nothing ↦ inl (ground arith)
        | inr (row, found) ↦
            elim (Bool-cases (rowcount (may_take row.job_id row.attempt_count now) rows == 1)) [
              | inl one ↦ inr (
                row,
                claimed c (row_to_record c row) owner (now + lease_seconds) drawn,
                ground arith,
              )
              | inr more ↦ inl (ground arith)
            ]
      ]

  pub released_rows :
      (rows : List JobRow) (job_id token : String) (now : ℕ) {done : Bool} {rows' : List JobRow}
      → release_expired_lease c rows job_id token now ≡ ok (done, rows')
      → (rows' ≡ rows)
        ⊎ ((json : String) × (rows'
              ≡ update_where (may_release job_id token now) (released c json) rows))
  unfolding release_expired_lease
  released_rows rows job_id token now h = elim (Option-cases (select_first (has_id job_id) rows)) [
    | inl nothing ↦ inl (ground arith)
    | inr (row, found) ↦
        let h' = rw found at h in
        let (g, h'') = guard_passed (not (holds_content (pending_document c row))) _ _ h' in
        elim (Bool-cases (rowcount (may_release job_id token now) rows == 1)) [
          | inl one ↦ inr (pending_document c row, ground arith)
          | inr more ↦ inl (ground arith)
        ]
  ]
