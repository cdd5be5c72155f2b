-- ===== src/Worker/Tests.antt =====
-- A worker that loses its job to another while its Kernel computes.
use pdx_artifact_engine.Prelude.{
  ℕ, ◌<◌, lookup, arith, ==_iff, if◌then◌else◌, ◌==◌, nat_eq, string_eq, object, no_fields, field,
  string, [], ◌∷◌, true, false, none, some, ◌≡◌, refl, sym, subst,
}
use pdx_artifact_engine.Actions.{◌>>=◌, ◌>>◌, return, require}
use pdx_artifact_engine.Jobs.Results.{no_result}
use pdx_artifact_engine.Jobs.Rows.{JobRow, update_where, has_id}
use pdx_artifact_engine.Jobs.Table.{find_row-elem, find_row-changed, find_row_id}
use pdx_artifact_engine.Jobs.Store.{JobRecord, get, holds_lease, row_to_record}
use pdx_artifact_engine.JobService.World.{
  World, Session, Outside, alone, store_holds, lost_is_set, set_lost,
}
use pdx_artifact_engine.Staging.{meta_of, read_bytes}
use pdx_artifact_engine.Worker.Lease.{JobWorker, lease_lost}
use pdx_artifact_engine.Worker.Kernel.{KernelClient}
use pdx_artifact_engine.Worker.Process.{process_locked}
use pdx_artifact_engine.Worker.OutputName.{safe_output_name}
use pdx_artifact_engine.Worker.Calls.{HasJob, IsTaken, IsTaken-stays}

abbrev o : Outside
o = record {
  json = record {
    dumps = λ d. "{}";
    loads = λ t. [];
    dump_items = λ items. "[]";
    load_items = λ t. no_result;
    str = λ n. "1";
  };
  formats = record { sha256 = λ b. "sha256:pdf"; rfc3339 = λ t. "later" };
  b64decode = λ t. none;
  b64encode = λ b. "";
  fromisoformat = λ t. none;
  strip = λ t. t;
  str_of = λ v. "";
  is_zero = λ t. false;
  loads_bytes = λ b. none;
  dumps_bytes = λ v. [];
}

abbrev kernel : KernelClient
kernel = record {
  materialize_intake = λ t document_b64 filename media_type sha256. none;
  extract_content_blocks = λ t document_artifact filename. none;
  store_derived = λ t output_name content_b64 media_type sha256. none;
  render_artifact = λ t d. none;
  compare_normalized_profiles = λ t d. none;
  verify_evidence_bundle = λ t d. none;
}

-- the row of the job, which the second worker now leases
abbrev row : JobRow
row = record {
  job_id = "j1";
  state = "running";
  idempotency_key = "k1";
  operation_digest = "sha256:o";
  document_json = "{}";
  payload_filename = "report.pdf";
  payload_media_type = "application/pdf";
  deadline_at = none;
  attempt_count = 2;
  lease_owner = some "w2";
  lease_expires_unix = some 200;
  lease_token = some "t2";
  result_json = none;
}

abbrev start : Session
start = record {
  tick = 0;
  world = record {
    rows = row ∷ [];
    staging = record { ttl_seconds = 60; max_decoded_bytes = 1000; payloads = []; metas = [] };
    lost = false;
  };
}

abbrev first_worker : JobWorker
first_worker = record { owner = "w1"; lease_seconds = 60; max_attempts = 3 }

-- the first worker finds that it has lost the lease
notices : (lease_lost alone o first_worker "t1" "j1" start).1.world.lost ≡ true
unfolding lease_lost lost_is_set set_lost store_holds holds_lease ◌>>=◌ ◌>>◌ return
notices = refl

-- a worker that compares two profiles, whose Kernel answers with an object
abbrev busy_kernel : KernelClient
busy_kernel = record kernel {
  compare_normalized_profiles = λ t d. some (object no_fields);
  store_derived = λ t output_name content_b64 media_type sha256.
      some (object (field "uri" (string "artifact://derived/op/out.json") no_fields));
}

abbrev busy : Outside
busy = record o {
  json = record o.json {
    loads = λ t.
        ("operation", string "compare_normalized_profiles")
        ∷ ("input_digest", string "sha256:pdf")
        ∷ ("staging", object (field "handle" (string "stg_1") no_fields))
        ∷ [];
  };
  loads_bytes = λ b. some (object no_fields);
}

-- The first worker still leases the job, and the payload is staged.
abbrev working : Session
working = record {
  tick = 0;
  world = record start.world {
    rows = record row { lease_owner = some "w1"; lease_token = some "t1"; attempt_count = 1 } ∷ [];
    staging = record {
      ttl_seconds = 60;
      max_decoded_bytes = 1000;
      payloads = ("stg_1", 37 ∷ []) ∷ [];
      metas = ("stg_1", meta_of o.formats (37 ∷ []) "application/json" "stg_1" 160) ∷ [];
    };
  };
}

abbrev taken_row : JobRow → JobRow
taken_row r = record r { lease_owner = some "w2"; lease_token = some "t2"; attempt_count = 2 }

-- The second worker takes the job during the first call of the Kernel, which is the fifth call.
abbrev second_worker : ℕ → World → World
second_worker m w =
    if m == 4 then record w { rows = update_where (has_id "j1") taken_row w.rows } else w

abbrev Second : JobRow → Type 0
Second r = r.lease_token ≡ some "t2"

ended :
    (process_locked second_worker busy first_worker busy_kernel "t1" "j1" 100 working).1.tick ≡ 9
unfolding process_locked ◌>>=◌ holds_lease return get lookup read_bytes ◌>>◌ require
ended = refl

takes : (w : World) → HasJob "j1" w → IsTaken "t1" "j1" Second (second_worker 4 w)
takes w there =
    let (r, found) = find_row-elem "j1" w.rows there in
    record {
      row = taken_row r;
      here =
          find_row-changed (has_id "j1") taken_row "j1" w.rows r (λ x. refl)
            ((==_iff ⦃e = string_eq⦄ r.job_id "j1").1 (find_row_id "j1" w.rows r found)) found;
      elsewhere = refl;
      theirs = refl;
    }

not_yet : (m : ℕ) (w : World) → m < 4 → second_worker m w ≡ w
not_yet m w lt = ground (arith, ==_iff m 4)

no_more : (m : ℕ) (w : World) → 4 < m → second_worker m w ≡ w
no_more m w lt = ground (arith, ==_iff m 4)

IsTaken-stays_example :
    IsTaken "t1" "j1" Second
      (process_locked second_worker busy first_worker busy_kernel "t1" "j1" 100 working).1.world
IsTaken-stays_example =
    IsTaken-stays second_worker busy first_worker busy_kernel "t1" "j1" "j1" Second 4 100 working
      (λ m w lt p. subst (HasJob "j1") (sym (not_yet m w lt)) p) takes
      (λ m w lt p. subst (IsTaken "t1" "j1" Second) (sym (no_more m w lt)) p) (omega arith) refl
      (rw ended (omega arith))

-- a render request that asks for a name in another directory
abbrev asks_for_name : Outside
asks_for_name = record o {
  loads_bytes = λ b. some (
      object (
        field "output" (object (field "output_name" (string "../out/report.pdf") no_fields))
          no_fields));
  b64decode = λ t. some (37 ∷ []);
}

abbrev renders : KernelClient
renders = record busy_kernel {
  render_artifact = λ t d. some (object (field "content_b64" (string "JQ==") no_fields));
}

stored_name : safe_output_name "../out/report.pdf" ≡ "report.pdf"
unfolding safe_output_name
stored_name = refl

abbrev job : JobRecord
job = row_to_record o.json row
