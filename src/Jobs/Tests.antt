-- ===== src/Jobs/Tests.antt =====
-- A table with two jobs, of which a worker claims the first.
use pdx_artifact_engine.Prelude.{
  ◌+◌, ◌≤◌, String, List, [], ◌∷◌, true, false, none, some, ok, ◌≡◌, ◌⊎◌, refl, arith, string_eq,
  ==_iff,
}
use pdx_artifact_engine.Jobs.Results.{no_result, is_intake_uri, is_processing_uri}
use pdx_artifact_engine.Jobs.Rows.{JobRow, select_first, is_offered}
use pdx_artifact_engine.Jobs.Store.{
  JobRecord, Json, row_to_record, row_of, claimed, claim_next, update, dump_result, insert_job,
  holds_lease, renew_lease,
}
use pdx_artifact_engine.Jobs.Table.{find_row}
use pdx_artifact_engine.Jobs.Claims.{Claim, claim_next-Claim}
use pdx_artifact_engine.Jobs.Fencing.{nothing, more, claims, updates, lease_excludes, stale_token}
use pdx_artifact_engine.Jobs.Attempts
use pdx_artifact_engine.Jobs.Attempts.{attempts_left, Claims-end}
use pdx_artifact_engine.Jobs.Lifecycle
use pdx_artifact_engine.Jobs.Lifecycle.{Move, phase, Step-Move}
use pdx_artifact_engine.Jobs.Keys.{HasKeys, none_yet, inserts, Calls-HasKeys}

abbrev json : Json
json = record {
  dumps = λ d. "{}";
  loads = λ t. [];
  dump_items = λ items. "[]";
  load_items = λ t. no_result;
  str = λ n. "1";
}

abbrev job : String → String → JobRecord
job id key = record {
  job_id = id;
  state = "pending";
  document = [];
  idempotency_key = key;
  operation_digest = "sha256:o";
  payload_filename = "document.bin";
  payload_media_type = "application/pdf";
  deadline_at = none;
  attempt_count = 0;
  lease_owner = none;
  lease_expires_unix = none;
  lease_token = none;
  result = no_result;
}

abbrev waiting : List JobRow
waiting = row_of json (job "j1" "k1") none ∷ row_of json (job "j2" "k2") none ∷ []

abbrev running_row : JobRow
running_row = record (row_of json (job "j1" "k1") none) {
  state = "running";
  attempt_count = 1;
  lease_owner = some "w1";
  lease_expires_unix = some 70;
  lease_token = some "t1";
}

abbrev claimed_table : List JobRow
claimed_table = running_row ∷ row_of json (job "j2" "k2") none ∷ []

claimed_first : (claim_next json waiting "w1" 60 3 10 "t1").1 ≡ claimed_table
unfolding claim_next
claimed_first = refl

claimed_by_first : claim_next json waiting "w1" 60 3 10 "t1" ≡ (
  some (claimed json (row_to_record json (row_of json (job "j1" "k1") none)) "w1" 70 "t1"),
  claimed_table,
)
unfolding claim_next row_to_record
claimed_by_first = refl

claim_next-Claim_example :
    ((select_first (is_offered 10 3) waiting ≡ none)
      × (claim_next json waiting "w1" 60 3 10 "t1" ≡ (none, waiting)))
    ⊎ ((r : JobRecord) × (rows' : List JobRow) × (claim_next json waiting "w1" 60 3 10 "t1"
          ≡ (some r, rows'))
        × Claim json waiting rows' "w1" (10 + 60) 3 10 "t1" r)
claim_next-Claim_example = claim_next-Claim json waiting "w1" 60 3 10 "t1" refl

other_update : update json claimed_table (job "j1" "k1") (some "t0") ≡ ok (false, claimed_table)
unfolding update dump_result
other_update = refl

abbrev two_claimed : List JobRow
two_claimed =
    running_row
    ∷ record (row_of json (job "j2" "k2") none) {
      state = "running";
      attempt_count = 1;
      lease_owner = some "w2";
      lease_expires_unix = some 80;
      lease_token = some "t2";
    }
    ∷ []

second_claim : (claim_next json claimed_table "w2" 60 3 20 "t2").1 ≡ two_claimed
unfolding claim_next
second_claim = refl

lease_excludes_example :
    (find_row "j1" (claim_next json claimed_table "w2" 60 3 20 "t2").1 ≡ some running_row)
    × (holds_lease (claim_next json claimed_table "w2" 60 3 20 "t2").1 "j1" "w1" "t1" ≡ true)
lease_excludes_example =
    lease_excludes json "j1" "w1" running_row
      (record { running = refl; fenced = refl; leased = refl }) refl refl
      (more
        (more nothing (
          updates (job "j1" "k1") "t0" (ground (arith, ==_iff {A = String} "t0" "t1"))
            other_update))
        (claims "w2" 60 3 20 "t2" (omega arith) refl))

stale_token_example :
    ((false ≡ false) × (claimed_table ≡ claimed_table))
    × ((holds_lease claimed_table "j1" "w0" "t0" ≡ false)
        × (renew_lease claimed_table "j1" "w0" "t0" 60 20 ≡ (false, claimed_table)))
stale_token_example =
    stale_token json claimed_table (job "j1" "k1") "w0" "t0" "t1" 60 20 running_row refl refl refl
      (ground (arith, ==_iff {A = String} "t0" "t1")) other_update

first_insert : insert_job json [] (job "j1" "k1") ≡ ok (row_of json (job "j1" "k1") none ∷ [])
unfolding insert_job dump_result
first_insert = refl

second_insert : insert_job json (row_of json (job "j1" "k1") none ∷ []) (job "j2" "k2") ≡ ok waiting
unfolding insert_job dump_result
second_insert = refl

Calls-HasKeys_example : HasKeys waiting
Calls-HasKeys_example =
    Calls-HasKeys json (record { by_id = refl; by_key = refl })
      (inserts (inserts none_yet (job "j1" "k1") first_insert) (job "j2" "k2") second_insert)

intake_uri : is_intake_uri "artifact://intake/batch-1/report.pdf" ≡ true
unfolding is_intake_uri
intake_uri = refl

intake_uri_dot : is_intake_uri "artifact://intake/batch.1/report.pdf" ≡ false
unfolding is_intake_uri
intake_uri_dot = refl

processing_uri : is_processing_uri "artifact://derived/op/out.json" ≡ true
unfolding is_processing_uri
processing_uri = refl

Claims-end_example :
    2
      + attempts_left 3
          (claim_next json (claim_next json waiting "w1" 60 3 10 "t1").1 "w2" 60 3 20 "t2").1
    ≤ attempts_left 3 waiting
unfolding claim_next row_to_record
Claims-end_example = Claims-end json 3 waiting (
    Attempts.claims "w2" 60 20 "t2" _ (Attempts.claims "w1" 60 10 "t1" _ Attempts.nothing refl)
      refl)

Step-Move_example :
    (row' : JobRow) × (find_row "j1" claimed_table ≡ some row')
    × Move 10 "t1" (phase (row_of json (job "j1" "k1") none)) (phase row')
Step-Move_example =
    Step-Move json 10 "t1" waiting claimed_table "j1" (row_of json (job "j1" "k1") none)
      (Lifecycle.claims "w1" 60 3 claimed_by_first) refl
