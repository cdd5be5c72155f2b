-- ===== src/Jobs/Store.antt =====
-- The methods of `JobStore`. Each runs under the store's lock, as one step; a statement that fails
-- leaves the table as it was.
use Prim.Native.String.{◌++◌ as append, slice}
use text.Mathlib.Text.{find?}
use pdx_artifact_engine.Prelude.{
  ℕ, ◌+◌, String, List, [], ◌∷◌, ◌++◌, Bool, true, false, ◌&&◌, not, Option, none, some, Result, ok,
  raise, ◌>>=◌, ◌>>◌, guard, if◌then◌else◌, ◌==◌, nat_eq, string_eq, any, Dict, insert, Value,
  string,
}
use pdx_artifact_engine.Jobs.Results.{
  ItemError, ResultItem, ResultValue, no_result, validate_result_items, normalize_result_items,
}
use pdx_artifact_engine.Jobs.Rows.{
  JobRow, select_first, update_where, rowcount, has_id, has_key, may_update, may_take, is_offered,
  holds, may_release,
}

pub data StoreError : Type 0 where
  refusal_persist_bytes integrity_error : StoreError
  result_error : ItemError → StoreError

pub record JobRecord : Type 0 where
  pub job_id : String
  pub state : String
  pub document : Dict Value
  pub idempotency_key : String
  pub operation_digest : String
  pub payload_filename : String
  pub payload_media_type : String
  pub deadline_at : Option String
  pub attempt_count : ℕ
  pub lease_owner : Option String
  pub lease_expires_unix : Option ℕ
  pub lease_token : Option String
  pub result : ResultValue

-- `json.dumps` and `json.loads` on documents and results, and the decimal text of a number.
pub record Json : Type 0 where
  pub dumps : Dict Value → String
  pub loads : String → Dict Value
  pub dump_items : List ResultItem → String
  pub load_items : String → ResultValue
  pub str : ℕ → String

-- `"content_b64" in text`
abbrev pub holds_content : String → Bool
holds_content t = elim (find? t "content_b64") [ none ↦ false | some at ↦ true ]

-- `x if x else default`
abbrev pub or_default : String → String → String
or_default s default = if s == "" then default else s

module _ (c : Json) where
  unfoldable pub row_to_record : JobRow → JobRecord
  row_to_record row = record {
    job_id = row.job_id;
    state = row.state;
    document = c.loads row.document_json;
    idempotency_key = row.idempotency_key;
    operation_digest = row.operation_digest;
    payload_filename = or_default row.payload_filename "document.bin";
    payload_media_type = or_default row.payload_media_type "application/octet-stream";
    deadline_at = row.deadline_at;
    attempt_count = row.attempt_count;
    lease_owner = row.lease_owner;
    lease_expires_unix = row.lease_expires_unix;
    lease_token = elim row.lease_token [ none ↦ none | some t ↦ if t == "" then none else some t ];
    result = elim row.result_json [
      | none ↦ no_result
      | some t ↦ if t == "" then no_result else c.load_items t
    ];
  }

  unfoldable pub get : List JobRow → String → Option JobRecord
  unfolding row_to_record
  get rows job_id = elim (select_first (has_id job_id) rows) [
    | none ↦ none
    | some row ↦ some (row_to_record row)
  ]

  unfoldable pub get_by_idempotency : List JobRow → String → Option JobRecord
  unfolding row_to_record
  get_by_idempotency rows key = elim (select_first (has_key key) rows) [
    | none ↦ none
    | some row ↦ some (row_to_record row)
  ]

  -- `_dump_result`
  unfoldable pub dump_result : JobRecord → Result StoreError (Option String)
  dump_result r = elim r.result [
    | no_result ↦ ok none
    | value ↦ elim (validate_result_items (normalize_result_items value) r.job_id) [
      | raise e ↦ raise (result_error e)
      | ok items ↦
          if holds_content (c.dump_items items)
          then raise refusal_persist_bytes
          else ok (some (c.dump_items items))
    ]
  ]

  -- the columns that `insert` binds
  abbrev pub row_of : JobRecord → Option String → JobRow
  row_of r result_json = record {
    job_id = r.job_id;
    state = r.state;
    idempotency_key = r.idempotency_key;
    operation_digest = r.operation_digest;
    document_json = c.dumps r.document;
    payload_filename = r.payload_filename;
    payload_media_type = r.payload_media_type;
    deadline_at = r.deadline_at;
    attempt_count = r.attempt_count;
    lease_owner = r.lease_owner;
    lease_expires_unix = r.lease_expires_unix;
    lease_token = r.lease_token;
    result_json = result_json;
  }

  -- `JobStore.insert`: the primary key and the unique index reject a row that meets an old one.
  unfoldable pub insert_job : List JobRow → JobRecord → Result StoreError (List JobRow)
  insert_job rows r = do
    guard (not (holds_content (c.dumps r.document))) refusal_persist_bytes
    result_json ← dump_result r
    guard (not (any (has_id r.job_id) rows) && not (any (has_key r.idempotency_key) rows))
        integrity_error
    ok (rows ++ row_of r result_json ∷ [])

  -- the columns that `update` sets
  abbrev pub overwrite : JobRecord → Option String → JobRow → JobRow
  overwrite r result_json row = record (row_of r result_json) {
    job_id = row.job_id;
    idempotency_key = row.idempotency_key;
  }

  -- `JobStore.update`: whether one row was changed, and the table.
  unfoldable pub update :
      List JobRow → JobRecord → Option String → Result StoreError (Bool × List JobRow)
  update rows r expected_lease_token = do
    guard (not (holds_content (c.dumps r.document))) refusal_persist_bytes
    result_json ← dump_result r
    ok (
      rowcount (may_update r.job_id expected_lease_token) rows == 1,
      update_where (may_update r.job_id expected_lease_token) (overwrite r result_json) rows,
    )

  -- the text of `run_id`
  abbrev pub run_id_of : String → ℕ → String → String
  run_id_of job_id attempt token =
      append "run_"
        (append job_id (append "_" (append (c.str attempt) (append "_" (slice token 0 12)))))

  -- `record` after the assignments of `claim_next`
  abbrev pub claimed : JobRecord → String → ℕ → String → JobRecord
  claimed r owner expires token = record r {
    state = "running";
    attempt_count = r.attempt_count + 1;
    lease_owner = some owner;
    lease_expires_unix = some expires;
    lease_token = some token;
    document =
        insert "run_id" (string (run_id_of r.job_id (r.attempt_count + 1) token))
          (insert "state" (string "running") r.document);
  }

  -- the columns that `claim_next` sets
  abbrev pub take : JobRecord → JobRow → JobRow
  take r row = record row {
    state = r.state;
    document_json = c.dumps r.document;
    attempt_count = r.attempt_count;
    lease_owner = r.lease_owner;
    lease_expires_unix = r.lease_expires_unix;
    lease_token = r.lease_token;
  }

  -- what `claim_next` does with the row that its query found; a `rollback` leaves the table as it was
  abbrev pub claim_found :
      List JobRow
      → (owner : String) (expires now : ℕ) (token : String) → Option JobRow
      → Option JobRecord × List JobRow
  claim_found rows owner expires now token none = (none, rows)
  claim_found rows owner expires now token (some row) =
      let r = claimed (row_to_record row) owner expires token in
      if rowcount (may_take row.job_id row.attempt_count now) rows == 1
      then (some r, update_where (may_take row.job_id row.attempt_count now) (take r) rows)
      else (none, rows)

  -- `JobStore.claim_next`, with the token that it draws
  unfoldable pub claim_next :
      List JobRow
      → (owner : String) (lease_seconds max_attempts now : ℕ) (token : String)
      → Option JobRecord × List JobRow
  unfolding row_to_record
  claim_next rows owner lease_seconds max_attempts now token =
      claim_found rows owner (now + lease_seconds) now token
        (select_first (is_offered now max_attempts) rows)

  -- the columns that `release_expired_lease` sets
  abbrev pub released : String → JobRow → JobRow
  released document_json row = record row {
    state = "pending";
    document_json = document_json;
    lease_owner = none;
    lease_expires_unix = none;
    lease_token = none;
  }

  -- the text of the document with its state set back
  abbrev pub pending_document : JobRow → String
  pending_document row = c.dumps (insert "state" (string "pending") (c.loads row.document_json))

  -- what `release_expired_lease` does with the row of the job
  abbrev pub release_found :
      List JobRow
      → (job_id token : String) (now : ℕ) → Option JobRow
      → Result StoreError (Bool × List JobRow)
  release_found rows job_id token now none = ok (false, rows)
  release_found rows job_id token now (some row) = do
    guard (not (holds_content (pending_document row))) refusal_persist_bytes
    ok (
        if rowcount (may_release job_id token now) rows == 1
        then (
          true,
          update_where (may_release job_id token now) (released (pending_document row)) rows,
        )
        else (false, rows))

  -- `JobStore.release_expired_lease`
  unfoldable pub release_expired_lease :
      List JobRow → (job_id token : String) (now : ℕ) → Result StoreError (Bool × List JobRow)
  release_expired_lease rows job_id token now =
      release_found rows job_id token now (select_first (has_id job_id) rows)

-- the column that `renew_lease` sets
abbrev pub renewed : ℕ → JobRow → JobRow
renewed expires row = record row { lease_expires_unix = some expires }

-- `JobStore.renew_lease`
unfoldable pub renew_lease :
    List JobRow → (job_id owner token : String) (lease_seconds now : ℕ) → Bool × List JobRow
renew_lease rows job_id owner token lease_seconds now = (
  rowcount (holds job_id owner token) rows == 1,
  update_where (holds job_id owner token) (renewed (now + lease_seconds)) rows,
)

-- `JobStore.holds_lease`
unfoldable pub holds_lease : List JobRow → (job_id owner token : String) → Bool
holds_lease rows job_id owner token = any (holds job_id owner token) rows
