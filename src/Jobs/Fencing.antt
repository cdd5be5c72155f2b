-- ===== src/Jobs/Fencing.antt =====
-- Who may write the row of a job that is leased.
use pdx_artifact_engine.Prelude.{
  ℕ, ◌+◌, ◌≤◌, String, List, [], ◌∷◌, Bool, true, false, Option, some, unique, ◌==◌, ==_iff,
  ==_refl, string_eq, option_eq, option_beq_iff, nat_eq, ◌≡◌, ◌≢◌, refl, ap, ◌∙◌, arith, inl, inr,
  ok,
}
use pdx_artifact_engine.Jobs.Rows.{
  JobRow, rowcount, has_token, is_expired, is_claimable, may_take, may_update, holds, may_release,
}
use pdx_artifact_engine.Jobs.Store.{
  JobRecord, Json, take, claim_next, insert_job, row_of, overwrite, update, renewed, renew_lease,
  holds_lease, release_expired_lease, released,
}
use pdx_artifact_engine.Jobs.Table.{
  find_row, ids, find_row-kept, find_row_id, find_row-append, rowcount-find_row, untouched, not_any,
  any_row,
}
use pdx_artifact_engine.Jobs.Effects.{
  inserted_rows, updated_rows, renewed_rows, claimed_rows, released_rows,
}

-- A row under a lease.
pub record IsLeased (token : String) (expires : ℕ) (row : JobRow) : Type 0 where
  pub running : row.state ≡ "running"
  pub fenced : row.lease_token ≡ some token
  pub leased : row.lease_expires_unix ≡ some expires

module _ (c : Json) where
  -- A call by someone who does not hold the token, at a time at which the lease has not expired.
  pub data Foreign (token : String) (expires : ℕ) (rows : List JobRow) : List JobRow → Type 0 where
    inserts :
        {rows' : List JobRow} (r : JobRecord)
        → insert_job c rows r ≡ ok rows'
        → Foreign token expires rows rows'
    claims :
        {rows' : List JobRow} {taken : Option JobRecord} (owner : String)
        (lease_seconds max_attempts now : ℕ) (drawn : String)
        → now ≤ expires
        → claim_next c rows owner lease_seconds max_attempts now drawn ≡ (taken, rows')
        → Foreign token expires rows rows'
    updates :
        {rows' : List JobRow} {done : Bool} (r : JobRecord) (other : String)
        → other ≢ token
        → update c rows r (some other) ≡ ok (done, rows')
        → Foreign token expires rows rows'
    renews :
        {rows' : List JobRow} {done : Bool} (job_id owner other : String) (lease_seconds now : ℕ)
        → other ≢ token
        → renew_lease rows job_id owner other lease_seconds now ≡ (done, rows')
        → Foreign token expires rows rows'
    releases :
        {rows' : List JobRow} {done : Bool} (job_id other : String) (now : ℕ)
        → now ≤ expires
        → release_expired_lease c rows job_id other now ≡ ok (done, rows')
        → Foreign token expires rows rows'

  not_token :
      (row : JobRow) (token other : String)
      → row.lease_token ≡ some token
      → other ≢ token
      → has_token other row ≡ false
  not_token row token other h differs =
      ground (arith, option_beq_iff row.lease_token (some other), ==_iff token other)

  not_expired :
      (row : JobRow) (expires now : ℕ)
      → row.lease_expires_unix ≡ some expires
      → now ≤ expires
      → is_expired now row ≡ false
  not_expired row expires now h le = rw h (ground arith)

  not_claimable :
      (row : JobRow) {token : String} (expires now : ℕ)
      → IsLeased token expires row
      → now ≤ expires
      → is_claimable now row ≡ false
  not_claimable row expires now leased le =
      rw (not_expired row expires now leased.leased le, leased.running) refl

  Foreign-keeps :
      {token : String} {expires : ℕ} {rows rows' : List JobRow} (job_id : String) (row : JobRow)
      → IsLeased token expires row
      → find_row job_id rows ≡ some row
      → Foreign token expires rows rows'
      → find_row job_id rows' ≡ some row
  Foreign-keeps {rows = rows} job_id row leased had (inserts r h) =
      let (ids_ok, keys_ok, (json, same)) = inserted_rows c rows r h in
      rw same (find_row-append job_id rows (row_of c r json ∷ []) row had)
  Foreign-keeps {expires = expires} {rows = rows} job_id row leased had
        (claims owner lease_seconds max_attempts now drawn le h) =
      elim (claimed_rows c rows owner lease_seconds max_attempts now drawn h) [
        | inl same ↦ rw same had
        | inr (other, r, same) ↦ rw same (
            find_row-kept (may_take other.job_id other.attempt_count now) (take c r) job_id rows row
              (λ x. refl) (ground (arith, not_claimable row expires now leased le)) had)
      ]
  Foreign-keeps {token} {rows = rows} job_id row leased had (updates r other differs h) =
      let (json, done, same) = updated_rows c rows r (some other) h in
      rw same (
        find_row-kept (may_update r.job_id (some other)) (overwrite c r json) job_id rows row
          (λ x. refl) (ground (arith, not_token row token other leased.fenced differs)) had)
  Foreign-keeps {token} {rows = rows} job_id row leased had
        (renews id owner other lease_seconds now differs h) =
      rw (renewed_rows c rows id owner other lease_seconds now h) (
        find_row-kept (holds id owner other) (renewed (now + lease_seconds)) job_id rows row
          (λ x. refl) (ground (arith, not_token row token other leased.fenced differs)) had)
  Foreign-keeps {expires = expires} {rows = rows} job_id row leased had
        (releases id other now le h) =
      elim (released_rows c rows id other now h) [
        | inl same ↦ rw same had
        | inr (json, same) ↦ rw same (
            find_row-kept (may_release id other now) (released c json) job_id rows row (λ x. refl)
              (ground (arith, not_expired row expires now leased.leased le)) had)
      ]

  -- Calls of others, one after another, none after the lease has expired.
  pub data Foreigns (token : String) (expires : ℕ) (rows : List JobRow) : List JobRow → Type 0 where
    nothing : Foreigns token expires rows rows
    more :
        {m rows' : List JobRow}
        → Foreigns token expires rows m
        → Foreign token expires m rows'
        → Foreigns token expires rows rows'

  Foreigns-keep :
      {token : String} {expires : ℕ} {rows rows' : List JobRow} (job_id : String) (row : JobRow)
      → IsLeased token expires row
      → find_row job_id rows ≡ some row
      → Foreigns token expires rows rows'
      → find_row job_id rows' ≡ some row
  Foreigns-keep job_id row leased had nothing = had
  Foreigns-keep job_id row leased had (more calls one) =
      Foreign-keeps job_id row leased (Foreigns-keep job_id row leased had calls) one

  -- A running job whose lease has a token stays as it is under any calls that do not name the token
  -- (insertions, claims, updates with another token, renewals and releases), as long as no claim and
  -- no release is made after the lease has expired; its owner then still holds the lease.
  pub lease_excludes :
      {token : String} {expires : ℕ} {rows rows' : List JobRow} (job_id owner : String)
      (row : JobRow)
      → IsLeased token expires row
      → row.lease_owner ≡ some owner
      → find_row job_id rows ≡ some row
      → Foreigns token expires rows rows'
      → (find_row job_id rows' ≡ some row) × (holds_lease rows' job_id owner token ≡ true)
  unfolding holds_lease
  lease_excludes {token} {rows' = rows'} job_id owner row leased owned had calls =
      let kept = Foreigns-keep job_id row leased had calls in
      (
        kept,
        any_row (holds job_id owner token) job_id rows' row kept (
            rw
              (
                find_row_id job_id rows' row kept,
                ==_refl job_id,
                leased.running,
                leased.fenced,
                owned,
                (option_beq_iff (some owner) (some owner)).1 refl,
                (option_beq_iff (some token) (some token)).1 refl,
              )
              refl),
      )

  -- Once a job runs under a new token, the old one is worth nothing: its holder no longer holds the
  -- lease, cannot renew it, and an update that names the old token and is not refused changes no row.
  pub stale_token :
      (rows : List JobRow) (r : JobRecord) (owner old new : String) (lease_seconds now : ℕ)
      (row : JobRow) {done : Bool} {rows' : List JobRow}
      → unique (ids rows) ≡ true
      → find_row r.job_id rows ≡ some row
      → row.lease_token ≡ some new
      → old ≢ new
      → update c rows r (some old) ≡ ok (done, rows')
      → ((done ≡ false) × (rows' ≡ rows))
        × ((holds_lease rows r.job_id owner old ≡ false)
            × (renew_lease rows r.job_id owner old lease_seconds now ≡ (false, rows)))
  unfolding holds_lease renew_lease
  stale_token rows r owner old new lease_seconds now row u had fenced differs h =
      let no = not_token row new old fenced differs in
      let q = holds r.job_id owner old in
      let met = rowcount-find_row q r.job_id rows row u (λ x. λ m. ground arith) had in
      let none_held : rowcount q rows ≡ 0 = ground arith in
      let p = may_update r.job_id (some old) in
      let met' = rowcount-find_row p r.job_id rows row u (λ x. λ m. ground arith) had in
      let none_met : rowcount p rows ≡ 0 = ground arith in
      let (json, is_done, same) = updated_rows c rows r (some old) h in
      (
        (
          is_done ∙ ap (λ (n : ℕ). n == 1) none_met,
          same ∙ untouched p (overwrite c r json) rows none_met,
        ),
        (
          not_any q rows none_held,
          rw (none_held, untouched q (renewed (now + lease_seconds)) rows none_held) refl,
        ),
      )
