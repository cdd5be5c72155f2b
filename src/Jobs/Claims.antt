-- ===== src/Jobs/Claims.antt =====
-- What a call of `claim_next` does.
use pdx_artifact_engine.Prelude.{
  ℕ, ◌+◌, ◌≤◌, String, List, true, none, some, unique, Option-cases, ◌==◌, ==_iff, ==_refl,
  string_eq, option_eq, nat_eq, ◌≡◌, ◌≢◌, refl, arith, inl, inr, ◌⊎◌,
}
use pdx_artifact_engine.Jobs.Rows.{
  JobRow, select_first, update_where, rowcount, may_take, is_offered,
}
use pdx_artifact_engine.Jobs.Store.{
  JobRecord, Json, row_to_record, claimed, take, claim_found, claim_next,
}
use pdx_artifact_engine.Jobs.Table.{
  find_row, ids, find_row-changed, find_row-kept, find_row_id, rowcount-find_row,
  find_row-select_first, found_meets,
}

-- The row as a claim finds it and leaves it.
pub record Claim (c : Json) (rows rows' : List JobRow) (owner : String)
    (expires max_attempts now : ℕ) (token : String) (r : JobRecord) : Type 0 where
  pub row : JobRow
  pub same_job : r.job_id ≡ row.job_id
  pub was_first : select_first (is_offered now max_attempts) rows ≡ some row
  pub was_row : find_row row.job_id rows ≡ some row
  pub is_row : find_row row.job_id rows' ≡ some (take c r row)
  pub running : r.state ≡ "running"
  pub one_more : r.attempt_count ≡ row.attempt_count + 1
  pub bounded : r.attempt_count ≤ max_attempts
  pub owned : r.lease_owner ≡ some owner
  pub leased : r.lease_expires_unix ≡ some expires
  pub fenced : r.lease_token ≡ some token
  pub others :
      (id : String) {other : JobRow}
      → id ≢ row.job_id
      → find_row id rows ≡ some other
      → find_row id rows' ≡ some other

module _ (c : Json) where
  -- The update of a claim meets exactly the row that its query found.
  takes_one :
      (rows : List JobRow) (row : JobRow) (max_attempts now : ℕ)
      → unique (ids rows) ≡ true
      → select_first (is_offered now max_attempts) rows ≡ some row
      → (rowcount (may_take row.job_id row.attempt_count now) rows == 1) ≡ true
  takes_one rows row max_attempts now u h =
      let found = find_row-select_first (is_offered now max_attempts) rows row u h in
      let offered = found_meets (is_offered now max_attempts) rows row h in
      let one =
        rowcount-find_row (may_take row.job_id row.attempt_count now) row.job_id rows row u
          (λ r. λ m. ground arith) found in
      ground (arith, ==_refl row.job_id, one)

  claim_found-some :
      (rows : List JobRow) (row : JobRow) (owner : String) (expires max_attempts now : ℕ)
      (token : String)
      → unique (ids rows) ≡ true
      → select_first (is_offered now max_attempts) rows ≡ some row
      → claim_found c rows owner expires now token (some row) ≡ (
        some (claimed c (row_to_record c row) owner expires token),
        update_where
            (may_take row.job_id row.attempt_count now)
            (take c (claimed c (row_to_record c row) owner expires token))
            rows,
      )
  claim_found-some rows row owner expires max_attempts now token u h =
      ground (arith, takes_one rows row max_attempts now u h)

  Claim-of :
      (rows : List JobRow) (row : JobRow) (owner : String) (expires max_attempts now : ℕ)
      (token : String)
      → unique (ids rows) ≡ true
      → select_first (is_offered now max_attempts) rows ≡ some row
      → Claim c rows
          (update_where
            (may_take row.job_id row.attempt_count now)
            (take c (claimed c (row_to_record c row) owner expires token))
            rows)
          owner
          expires
          max_attempts
          now
          token
          (claimed c (row_to_record c row) owner expires token)
  unfolding row_to_record
  Claim-of rows row owner expires max_attempts now token u h =
      let q = may_take row.job_id row.attempt_count now in
      let r = claimed c (row_to_record c row) owner expires token in
      let found = find_row-select_first (is_offered now max_attempts) rows row u h in
      let offered = found_meets (is_offered now max_attempts) rows row h in
      record {
        row = row;
        same_job = refl;
        was_first = h;
        was_row = found;
        is_row =
            find_row-changed q (take c r) row.job_id rows row (λ x. refl)
              (ground (arith, ==_refl row.job_id)) found;
        running = refl;
        one_more = refl;
        bounded = ground arith;
        owned = refl;
        leased = refl;
        fenced = refl;
        others = λ id {other} differs had.
            find_row-kept q (take c r) id rows other (λ x. refl)
              (ground (arith, find_row_id id rows other had, ==_iff other.job_id row.job_id)) had;
      }

  -- On a table whose jobs have different ids, a claim takes a job whenever a row is offered: the
  -- first row in the table that is pending, or running with a lease that has expired, and has
  -- attempts left. It then runs under the new owner, token and expiry with one attempt more, still
  -- within the bound, and the rows of all other jobs are as they were. If no row is offered, there
  -- is no claim, and the table is as it was.
  pub claim_next-Claim :
      (rows : List JobRow) (owner : String) (lease_seconds max_attempts now : ℕ) (token : String)
      → unique (ids rows) ≡ true
      → ((select_first (is_offered now max_attempts) rows ≡ none)
          × (claim_next c rows owner lease_seconds max_attempts now token ≡ (none, rows)))
        ⊎ ((r : JobRecord) × (rows' : List JobRow) × (claim_next c rows owner lease_seconds
                max_attempts now token
              ≡ (some r, rows'))
            × Claim c rows rows' owner (now + lease_seconds) max_attempts now token r)
  unfolding claim_next
  claim_next-Claim rows owner lease_seconds max_attempts now token u =
      elim (Option-cases (select_first (is_offered now max_attempts) rows)) [
        | inl nothing ↦ inl (nothing, rw nothing refl)
        | inr (row, h) ↦ inr (
          _,
          _,
          rw h (claim_found-some rows row owner (now + lease_seconds) max_attempts now token u h),
          Claim-of rows row owner (now + lease_seconds) max_attempts now token u h,
        )
      ]
