-- ===== src/Core/Snapshot/Tests.antt =====
-- Snapshots and repositories at concrete inputs.
use pdx_artifact_engine.Prelude.{
  ℕ, String, List, [], ◌∷◌, ◌≡◌, ◌≢◌, ◌↔◌, refl, ok, raise, none, some, true, false, lookup, insert,
  string_eq, nat_eq, inl,
}
use pdx_artifact_engine.Core.Book.{empty_book, store}
use pdx_artifact_engine.Core.Approval.Defs.{Checkpoint}
use pdx_artifact_engine.Core.Snapshot.Defs.{
  ReceiptStatus, StepReceipt, Content, RunSnapshot, Problem, SnapshotError, Loaded, Contract,
  snapshot_digest, validate_step_receipt, validate_run_snapshot, create_run_snapshot,
  encode_run_snapshot, decode_run_snapshot,
}
use pdx_artifact_engine.Core.Snapshot.Repository.{
  CheckpointRepository, DecisionRepository, StoredDecision, put_if_absent, compare_and_set, get,
  record_once, get_by_checkpoint_id, get_by_idempotency_key,
}
use pdx_artifact_engine.Core.Snapshot.Soundness.{IsSound, validate_snapshot_iff}
use pdx_artifact_engine.Core.Snapshot.Codec.{Decodes, decode-encode, decode_iff}
use pdx_artifact_engine.Core.Snapshot.Versions
use pdx_artifact_engine.Core.Snapshot.Decisions

program : Unit {0}
unfolding snapshot_digest validate_step_receipt validate_run_snapshot create_run_snapshot
    encode_run_snapshot decode_run_snapshot put_if_absent compare_and_set get record_once
    get_by_checkpoint_id get_by_idempotency_key lookup insert
program = tt

abbrev checkpoint : Checkpoint ℕ
checkpoint = record {
  checkpoint_id = "chk_1";
  run_id = "run";
  subject_digest = "subject";
  plan_digest = "plan";
  completed_step_ids = "a" ∷ [];
  pending_step_ids = "b" ∷ [];
  evidence_digests = 7;
  status = "pending";
  created_at = "now";
}

abbrev receipt : String → String → ReceiptStatus → StepReceipt String
receipt name step status = record {
  receipt_id = name;
  run_id = "run";
  step_id = step;
  status = status;
  output_bindings = [];
  rest = "";
}

abbrev content : ℕ → Content String ℕ
content version = record {
  snapshot_id = "snap";
  snapshot_version = version;
  run_id = "run";
  state = "awaiting_approval";
  checkpoint = checkpoint;
  step_receipts = receipt "r1" "a" ReceiptStatus.completed ∷ [];
  event_sequence = 0;
  created_at = "now";
  plan_identity = none;
  subject_identity = none;
}

abbrev snap : ℕ → RunSnapshot String ℕ
snap version = record { content = content version; snapshot_digest = "d" }

-- Schemas that accept all, a hash with one value, and an encoding by the version alone.
abbrev contract : Contract String ℕ
contract = record {
  snapshot_schema = λ s. [];
  receipt_schema = λ r. [];
  sorted = λ xs. xs;
  hash = λ content. "d";
  dumps = λ s. s.snapshot_version ∷ [];
  loads = λ raw. elim raw [ [] ↦ Loaded.no_json | v ∷ rest ↦ Loaded.snapshot (snap v) ];
}

created :
    create_run_snapshot contract checkpoint
      (receipt "r1" "a" ReceiptStatus.completed ∷ [])
      "awaiting_approval"
      none
      1
      none
      none
      0
      none
      "snap"
      "now"
    ≡ ok (snap 1)
unfolding program
created = refl

all_problems :
    validate_run_snapshot contract (record {
      content = record (content 1) {
        step_receipts =
            receipt "r1" "a" ReceiptStatus.failed
            ∷ record (receipt "r1" "z" ReceiptStatus.failed) { run_id = "other" }
            ∷ [];
      };
      snapshot_digest = "e";
    })
    ≡ Problem.duplicate_receipt 1
      ∷ Problem.receipt_run_mismatch 1
      ∷ Problem.unknown_steps ("z" ∷ [])
      ∷ Problem.completed_mismatch
      ∷ Problem.digest_mismatch
      ∷ []
unfolding program
all_problems = refl

duplicate_names :
    validate_step_receipt contract (record (receipt "r1" "a" ReceiptStatus.completed) {
      output_bindings =
          record { name = "x"; artifact = "1" } ∷ record { name = "x"; artifact = "2" } ∷ [];
    })
    ≡ Problem.duplicate_name "x" ∷ []
unfolding program
duplicate_names = refl

encoded : encode_run_snapshot contract (snap 3) ≡ ok (3 ∷ [])
unfolding program
encoded = refl

decoded : decode_run_snapshot contract [] ≡ raise SnapshotError.malformed
unfolding program
decoded = refl

abbrev one : CheckpointRepository String ℕ
one = ("snap", snap 1) ∷ []

abbrev two : CheckpointRepository String ℕ
two = ("snap", snap 2) ∷ []

put_first : put_if_absent contract [] (snap 1) ≡ ok (true, one)
unfolding program
put_first = refl

put_again : put_if_absent contract one (snap 5) ≡ ok (false, one)
unfolding program
put_again = refl

swap_first : compare_and_set contract one "snap" 1 (snap 2) ≡ ok (true, two)
unfolding program
swap_first = refl

swap_late : compare_and_set contract two "snap" 1 (snap 2) ≡ ok (false, two)
unfolding program
swap_late = refl

swap_wrong :
    (compare_and_set contract two "snap" 2 (snap 4) ≡ raise SnapshotError.version_mismatch)
    × (compare_and_set contract two "other" 2 (snap 3) ≡ raise SnapshotError.identity_mismatch)
    × (get two "snap" ≡ some (snap 2))
unfolding program
swap_wrong = (refl, refl, refl)

abbrev decision : StoredDecision String
decision = record { idempotency_key = "key"; checkpoint_id = "chk_1"; rest = "approved" }

abbrev accepts : StoredDecision String → List String
accepts d = []

abbrev decided : DecisionRepository String
decided = store empty_book "key" "chk_1" decision

recorded : record_once accepts empty_book decision ≡ ok (decision, decided)
unfolding program
recorded = refl

recorded_again : record_once accepts decided decision ≡ ok (decision, decided)
unfolding program
recorded_again = refl

conflict :
    record_once accepts decided (record decision { idempotency_key = "k2" })
    ≡ raise SnapshotError.decision_conflict
unfolding program
conflict = refl

validate_snapshot_iff_example :
    (validate_run_snapshot contract (snap 1) ≡ []) ↔ IsSound contract (snap 1)
validate_snapshot_iff_example = validate_snapshot_iff contract (snap 1)

decode_iff_example :
    (decode_run_snapshot contract (3 ∷ []) ≡ ok (snap 3)) ↔ Decodes contract (3 ∷ []) (snap 3)
decode_iff_example = decode_iff contract (3 ∷ []) (snap 3)

decode-encode_example : decode_run_snapshot contract (3 ∷ []) ≡ ok (snap 3)
decode-encode_example = decode-encode contract (snap 3) refl encoded

history : Versions.Calls contract [] two
history = Versions.swap (Versions.put Versions.here (snap 1) put_first) "snap" 1 (snap 2) swap_first

Calls-Later_example : Versions.Later contract one two
Calls-Later_example =
    Versions.Calls-Later contract (Versions.swap Versions.here "snap" 1 (snap 2) swap_first)

compare_and_set_once_example : compare_and_set contract two "snap" 1 (snap 7) ≢ ok (true, two)
compare_and_set_once_example =
    Versions.compare_and_set_once contract one two "snap" 1 (snap 2) (snap 7) swap_first
      Versions.here

Calls-IsStore_example : Versions.IsStore contract two
Calls-IsStore_example = Versions.Calls-IsStore contract history

record_once-Stands_example : (decision ≡ decision) × Decisions.Stands accepts decision decided
record_once-Stands_example =
    Decisions.record_once-Stands accepts empty_book decision Decisions.here recorded Decisions.here

record_once_unique_example : decision ≡ decision
record_once_unique_example =
    Decisions.record_once_unique accepts empty_book decided decision decision Decisions.here
      recorded Decisions.here recorded_again (inl refl)
