-- ===== src/Jobs/Rows.antt =====
-- The table `jobs`: its rows in the order of their rowid, and the statements that read and write it.
use pdx_artifact_engine.Prelude.{
  ℕ, suc, String, List, [], ◌∷◌, Bool, false, ◌&&◌, ◌||◌, Option, none, some, if◌then◌else◌, ltb,
  ◌==◌, nat_eq, string_eq, option_eq,
}

-- A row. A column that may be NULL is an option.
pub record JobRow : Type 0 where
  pub job_id : String
  pub state : String
  pub idempotency_key : String
  pub operation_digest : String
  pub document_json : String
  pub payload_filename : String
  pub payload_media_type : String
  pub deadline_at : Option String
  pub attempt_count : ℕ
  pub lease_owner : Option String
  pub lease_expires_unix : Option ℕ
  pub lease_token : Option String
  pub result_json : Option String

-- `SELECT * FROM jobs WHERE ..` with `fetchone()`: the first row in rowid order
abbrev pub select_first : (JobRow → Bool) → List JobRow → Option JobRow
select_first p [] = none
select_first p (row ∷ rows) = if p row then some row else select_first p rows

-- `UPDATE jobs SET .. WHERE ..`
abbrev pub update_where : (JobRow → Bool) → (JobRow → JobRow) → List JobRow → List JobRow
update_where p change [] = []
update_where p change (row ∷ rows) =
    (if p row then change row else row) ∷ update_where p change rows

-- the `rowcount` of an update
abbrev pub rowcount : (JobRow → Bool) → List JobRow → ℕ
rowcount p [] = 0
rowcount p (row ∷ rows) = if p row then suc (rowcount p rows) else rowcount p rows

-- `job_id = ?`
abbrev pub has_id : String → JobRow → Bool
has_id job_id row = row.job_id == job_id

abbrev pub has_key : String → JobRow → Bool
has_key key row = row.idempotency_key == key

-- `lease_token = ?`, which NULL never meets
abbrev pub has_token : String → JobRow → Bool
has_token token row = row.lease_token == some token

abbrev pub has_owner : String → JobRow → Bool
has_owner owner row = row.lease_owner == some owner

abbrev pub is_running : JobRow → Bool
is_running row = row.state == "running"

-- `lease_expires_unix IS NOT NULL AND lease_expires_unix < ?`
abbrev pub is_expired : ℕ → JobRow → Bool
is_expired now row = elim row.lease_expires_unix [ none ↦ false | some expires ↦ ltb expires now ]

-- `state = 'pending' OR (state = 'running' AND ..)`
abbrev pub is_claimable : ℕ → JobRow → Bool
is_claimable now row = row.state == "pending" || (is_running row && is_expired now row)

-- the condition of `update`
abbrev pub may_update : String → Option String → JobRow → Bool
may_update job_id none row = has_id job_id row
may_update job_id (some token) row = has_id job_id row && (has_token token row && is_running row)

-- the condition of the update in `claim_next`
abbrev pub may_take : String → ℕ → ℕ → JobRow → Bool
may_take job_id attempts now row =
    has_id job_id row && (row.attempt_count == attempts && is_claimable now row)

-- the condition of the query in `claim_next`
abbrev pub is_offered : ℕ → ℕ → JobRow → Bool
is_offered now max_attempts row = is_claimable now row && ltb row.attempt_count max_attempts

-- the condition of `renew_lease` and `holds_lease`
abbrev pub holds : String → String → String → JobRow → Bool
holds job_id owner token row =
    has_id job_id row && (has_owner owner row && (has_token token row && is_running row))

-- the condition of the update in `release_expired_lease`
abbrev pub may_release : String → String → ℕ → JobRow → Bool
may_release job_id token now row =
    has_id job_id row && (is_running row && (has_token token row && is_expired now row))
