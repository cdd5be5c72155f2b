-- ===== src/Jobs/Lifecycle.antt =====
-- The life of one job, whatever the table holds besides.
use mathlib.Core.Path.{subst₂}
use pdx_artifact_engine.Prelude.{
  ℕ, ◌+◌, ◌<◌, String, List, Bool, true, false, ◌&&◌, Option, some, ok, ◌==◌, ==_iff, nat_eq,
  string_eq, option_eq, option_beq_iff, if◌then◌else◌, ◌≡◌, refl, sym, ap, ◌∙◌, subst, arith, inl,
  inr, Bool-cases, Option-cases,
}
use pdx_artifact_engine.Jobs.Rows.{
  JobRow, select_first, update_where, rowcount, has_token, is_running, is_expired, is_claimable,
  may_take, may_update, may_release, holds, is_offered,
}
use pdx_artifact_engine.Jobs.Store.{
  JobRecord, Json, claimed, take, row_to_record, claim_next, update, overwrite, renew_lease,
  renewed, release_expired_lease, released,
}
use pdx_artifact_engine.Jobs.Table.{find_row, find_row-update_where}
use pdx_artifact_engine.Jobs.Effects.{updated_rows, renewed_rows, released_rows}

-- A job that waits, one that is held under a lease, or one that has ended.
pub data Phase : Type 0 where
  waiting : Phase
  held : (token : Option String) (expires : Option ℕ) → Phase
  ended : (state : String) → Phase

unfoldable pub phase : JobRow → Phase
phase row =
    if row.state == "pending"
    then waiting
    else if row.state == "running"
    then held row.lease_token row.lease_expires_unix
    else ended row.state

-- What may happen to a job at a time, by the holder of a token.
pub data Move (now : ℕ) (token : String) : Phase → Phase → Type 0 where
  stays : (p : Phase) → Move now token p p
  starts : (expires : ℕ) → Move now token waiting (held (some token) (some expires))
  takes_over :
      (before : Option String) (old expires : ℕ)
      → old < now
      → Move now token (held before (some old)) (held (some token) (some expires))
  prolongs :
      (old : Option ℕ) (expires : ℕ)
      → Move now token (held (some token) old) (held (some token) (some expires))
  frees : (old : ℕ) → old < now → Move now token (held (some token) (some old)) waiting
  gives_back : (old : Option ℕ) → Move now token (held (some token) old) waiting
  ends : (old : Option ℕ) (state : String) → Move now token (held (some token) old) (ended state)

module _ (c : Json) where
  -- A call of a worker that names a token, or draws it.
  pub data Step (now : ℕ) (token : String) (rows : List JobRow) : List JobRow → Type 0 where
    claims :
        {rows' : List JobRow} {taken : Option JobRecord} (owner : String)
        (lease_seconds max_attempts : ℕ)
        → claim_next c rows owner lease_seconds max_attempts now token ≡ (taken, rows')
        → Step now token rows rows'
    renews :
        {rows' : List JobRow} {done : Bool} (job_id owner : String) (lease_seconds : ℕ)
        → renew_lease rows job_id owner token lease_seconds now ≡ (done, rows')
        → Step now token rows rows'
    releases :
        {rows' : List JobRow} {done : Bool} (job_id : String)
        → release_expired_lease c rows job_id token now ≡ ok (done, rows')
        → Step now token rows rows'
    writes :
        {rows' : List JobRow} {done : Bool} (r : JobRecord)
        → (r.state == "running") ≡ false
        → update c rows r (some token) ≡ ok (done, rows')
        → Step now token rows rows'

  -- An update moves a job if its row, where it meets the condition, is moved.
  moved :
      (now : ℕ) (token : String) (q : JobRow → Bool) (f : JobRow → JobRow) (job_id : String)
      (rows rows' : List JobRow) (row : JobRow)
      → rows' ≡ update_where q f rows
      → ((x : JobRow) → (f x).job_id ≡ x.job_id)
      → (q row ≡ true → Move now token (phase row) (phase (f row)))
      → find_row job_id rows ≡ some row
      → (row' : JobRow) × (find_row job_id rows' ≡ some row')
        × Move now token (phase row) (phase row')
  moved now token q f job_id rows rows' row changed same move found =
      let there =
        ap (find_row job_id) changed ∙ find_row-update_where q f job_id rows row same found in
      elim (Bool-cases (q row)) [
        | inl hit ↦ (f row, there ∙ ap (λ b. some (if b then f row else row)) hit, move hit)
        | inr miss ↦
            (row, there ∙ ap (λ b. some (if b then f row else row)) miss, stays (phase row))
      ]

  phase_held :
      (row : JobRow) (token : String)
      → (has_token token row && is_running row) ≡ true
      → phase row ≡ held (some token) row.lease_expires_unix
  unfolding phase
  phase_held row token h =
      let state_is : row.state ≡ "running" = ground (arith, ==_iff row.state "running") in
      let token_is : row.lease_token ≡ some token =
        ground (arith, option_beq_iff row.lease_token (some token)) in
      rw (state_is, token_is) refl

  expired_at :
      (now : ℕ) (row : JobRow)
      → is_expired now row ≡ true
      → (old : ℕ) × (row.lease_expires_unix ≡ some old) × (old < now)
  expired_at now row h = elim (Option-cases row.lease_expires_unix) [
    | inl nothing ↦ absurd (ground arith)
    | inr (old, is_old) ↦ (old, is_old, ground arith)
  ]

  renew-Move :
      (now : ℕ) (token job_id owner : String) (expires : ℕ) (row : JobRow)
      → holds job_id owner token row ≡ true
      → Move now token (phase row) (phase (renewed expires row))
  renew-Move now token job_id owner expires row hit =
      let before = phase_held row token (ground arith) in
      let after = phase_held (renewed expires row) token (ground arith) in
      subst₂ (Move now token) (sym before) (sym after) (prolongs row.lease_expires_unix expires)

  release-Move :
      (now : ℕ) (token job_id json : String) (row : JobRow)
      → may_release job_id token now row ≡ true
      → Move now token (phase row) (phase (released c json row))
  unfolding phase
  release-Move now token job_id json row hit =
      let (old, is_old, less) = expired_at now row (ground arith) in
      let before = phase_held row token (ground arith) ∙ ap (held (some token)) is_old in
      subst (λ p. Move now token p waiting) (sym before) (frees old less)

  -- the phase that an update writes
  write_phase :
      (r : JobRecord) (json : Option String) (row : JobRow)
      → (r.state == "running") ≡ false
      → phase (overwrite c r json row) ≡ (if r.state == "pending" then waiting else ended r.state)
  unfolding phase
  write_phase r json row not_running = rw not_running refl

  write-Move :
      (now : ℕ) (token : String) (r : JobRecord) (json : Option String) (row : JobRow)
      → (r.state == "running") ≡ false
      → may_update r.job_id (some token) row ≡ true
      → Move now token (phase row) (phase (overwrite c r json row))
  write-Move now token r json row not_running hit =
      let before = phase_held row token (ground arith) in
      subst₂ (Move now token) (sym before) (sym (write_phase r json row not_running))
        (elim (Bool-cases (r.state == "pending")) [
          | inl pending ↦
              subst
                (λ b.
                  Move now token (held (some token) row.lease_expires_unix)
                    (if b then waiting else ended r.state))
                (sym pending) (gives_back row.lease_expires_unix)
          | inr other ↦
              subst
                (λ b.
                  Move now token (held (some token) row.lease_expires_unix)
                    (if b then waiting else ended r.state))
                (sym other) (ends row.lease_expires_unix r.state)
        ])

  -- the phase of a row that a claim may take
  claim-Move :
      (now : ℕ) (token : String) (expires : ℕ) (row : JobRow)
      → is_claimable now row ≡ true
      → Move now token (phase row) (held (some token) (some expires))
  unfolding phase
  claim-Move now token expires row claimable = elim (Bool-cases (row.state == "pending")) [
    | inl pending ↦ rw pending (starts expires)
    | inr other ↦
        let (old, is_old, less) = expired_at now row (ground arith) in
        let running : (row.state == "running") ≡ true = ground arith in
        rw (other, running, is_old) (takes_over row.lease_token old expires less)
  ]

  claimed-Move :
      (now : ℕ) (token : String) (rows rows' : List JobRow) (taken : Option JobRecord)
      (owner : String) (lease_seconds max_attempts : ℕ) (job_id : String) (row : JobRow)
      → claim_next c rows owner lease_seconds max_attempts now token ≡ (taken, rows')
      → find_row job_id rows ≡ some row
      → (row' : JobRow) × (find_row job_id rows' ≡ some row')
        × Move now token (phase row) (phase row')
  unfolding claim_next row_to_record phase
  claimed-Move now token rows rows' taken owner lease_seconds max_attempts job_id row h found =
      elim (Option-cases (select_first (is_offered now max_attempts) rows)) [
        | inl nothing ↦
            let same : rows ≡ rows' = ground arith in
            (row, ap (find_row job_id) (sym same) ∙ found, stays (phase row))
        | inr (first, is_first) ↦
            let q = may_take first.job_id first.attempt_count now in
            let change =
              take c (claimed c (row_to_record c first) owner (now + lease_seconds) token) in
            elim (Bool-cases (rowcount q rows == 1)) [
              | inl one ↦
                  moved now token q change job_id rows rows' row (ground arith) (λ x. refl)
                    (λ hit. claim-Move now token (now + lease_seconds) row (ground arith)) found
              | inr more ↦
                  let same : rows ≡ rows' = ground arith in
                  (row, ap (find_row job_id) (sym same) ∙ found, stays (phase row))
            ]
      ]

  -- The job store does with a job what the life of a job allows: a call that names or draws a token
  -- (a claim, a renewal, a release, or an update that does not write the state running) leaves every
  -- job of the table there, and takes it from its phase to the next by a move of that token. A job
  -- that has ended does not move, one under a lease that has not expired is moved by its own
  -- token alone, and one that waits can only be started.
  pub Step-Move :
      (now : ℕ) (token : String) (rows rows' : List JobRow) (job_id : String) (row : JobRow)
      → Step now token rows rows'
      → find_row job_id rows ≡ some row
      → (row' : JobRow) × (find_row job_id rows' ≡ some row')
        × Move now token (phase row) (phase row')
  Step-Move now token rows rows' job_id row
        (claims {taken = taken} owner lease_seconds max_attempts h) found =
      claimed-Move now token rows rows' taken owner lease_seconds max_attempts job_id row h found
  Step-Move now token rows rows' job_id row (renews id owner lease_seconds h) found =
      moved now token (holds id owner token) (renewed (now + lease_seconds)) job_id rows rows' row
        (renewed_rows c rows id owner token lease_seconds now h) (λ x. refl)
        (renew-Move now token id owner (now + lease_seconds) row) found
  Step-Move now token rows rows' job_id row (releases id h) found =
      elim (released_rows c rows id token now h) [
        | inl same ↦ (row, ap (find_row job_id) same ∙ found, stays (phase row))
        | inr (json, changed) ↦
            moved now token (may_release id token now) (released c json) job_id rows rows' row
              changed (λ x. refl) (release-Move now token id json row) found
      ]
  Step-Move now token rows rows' job_id row (writes r not_running h) found =
      let (json, is_done, changed) = updated_rows c rows r (some token) h in
      moved now token (may_update r.job_id (some token)) (overwrite c r json) job_id rows rows' row
        changed (λ x. refl) (write-Move now token r json row not_running) found
