-- ===== src/Core/Snapshot/Defs.antt =====
-- Snapshots: validation, creation, encoding and decoding.
-- `J` stands for JSON content that is only copied, `E` for the evidence digests of a checkpoint.
use pdx_artifact_engine.Prelude.{
  when, ℕ, suc, String, List, [], ◌∷◌, ◌++◌, map, Bool, true, false, not, ◌&&◌, Option, Result, ok,
  raise, ◌>>◌, guard, is_empty, if◌then◌else◌, ltb, ◌==◌, string_eq, elem, select, subset, overlaps,
  duplicates, length,
}
use pdx_artifact_engine.Core.Approval.Defs.{Checkpoint, text_or}

abbrev pub max_snapshot_bytes : ℕ
max_snapshot_bytes = 2_000_000

pub data ReceiptStatus : Type 0 where
  completed completed_with_review failed blocked cancelled timed_out unknown_outcome : ReceiptStatus

-- `status in _SUCCESS`
abbrev pub is_success : ReceiptStatus → Bool
is_success completed = true
is_success completed_with_review = true
is_success _ = false

-- An output binding: its name, and the identity of an artifact.
pub record OutputBinding (J : Type 0) : Type 0 where
  pub name : String
  pub artifact : J

pub record StepReceipt (J : Type 0) : Type 0 where
  pub receipt_id : String
  pub run_id : String
  pub step_id : String
  pub status : ReceiptStatus
  pub output_bindings : List (OutputBinding J)
  pub rest : J

-- A snapshot without its `snapshot_digest`.
pub record Content (J E : Type 0) : Type 0 where
  pub snapshot_id : String
  pub snapshot_version : ℕ
  pub run_id : String
  pub state : String
  pub checkpoint : Checkpoint E
  pub step_receipts : List (StepReceipt J)
  pub event_sequence : ℕ
  pub created_at : String
  pub plan_identity : Option J
  pub subject_identity : Option J

pub record RunSnapshot (J E : Type 0) : Type 0 where
  pub content : Content J E
  pub open content use *
  pub snapshot_digest : String

pub data Problem : Type 0 where
  schema : String → Problem
  duplicate_name : String → Problem
  checkpoint_run_mismatch : Problem
  in_receipt : ℕ → Problem → Problem
  duplicate_receipt : ℕ → Problem
  duplicate_step : ℕ → Problem
  receipt_run_mismatch : ℕ → Problem
  not_disjoint : Problem
  unknown_steps : List String → Problem
  completed_mismatch : Problem
  success_pending : Problem
  digest_mismatch : Problem

pub data SnapshotError : Type 0 where
  invalid_snapshot : List Problem → SnapshotError
  too_large malformed not_object identity_mismatch version_mismatch decision_conflict :
      SnapshotError
  invalid_decision : List String → SnapshotError

-- What a JSON text holds: no JSON, JSON that is no object, an object that has not the fields of a
-- snapshot, with the messages of the schema, or a snapshot.
pub data Loaded (J E : Type 0) : Type 0 where
  no_json no_object : Loaded J E
  misshapen : List Problem → Loaded J E
  snapshot : RunSnapshot J E → Loaded J E

-- The JSON schemas, `json` and `hashlib`. `sorted` puts texts in order, and `dumps` is the canonical
-- encoding.
pub record Contract (J E : Type 0) : Type 0 where
  pub snapshot_schema : RunSnapshot J E → List Problem
  pub receipt_schema : StepReceipt J → List Problem
  pub sorted : List String → List String
  pub hash : Content J E → String
  pub dumps : RunSnapshot J E → List ℕ
  pub loads : List ℕ → Loaded J E

-- The variables of the loop over the receipts.
pub record Scan : Type 0 where
  pub errors : List Problem
  pub receipt_ids : List String
  pub step_ids : List String
  pub successful_steps : List String

abbrev pub scan_start : {J E : Type 0} → RunSnapshot J E → Scan
scan_start s = record {
  errors = when (not (s.checkpoint.run_id == s.run_id)) checkpoint_run_mismatch;
  receipt_ids = [];
  step_ids = [];
  successful_steps = [];
}

module _ {J E : Type 0} (c : Contract J E) where
  unfoldable pub snapshot_digest : Content J E → String
  snapshot_digest content = c.hash content

  unfoldable pub validate_step_receipt : StepReceipt J → List Problem
  validate_step_receipt receipt =
      let errors = c.receipt_schema receipt in
      if not (is_empty errors)
      then errors
      else map duplicate_name (c.sorted (duplicates (map (λ b. b.name) receipt.output_bindings)))

  unfoldable pub receipt_errors : String → ℕ → StepReceipt J → Scan → List Problem
  receipt_errors run_id index receipt s =
      map (in_receipt index) (validate_step_receipt receipt)
      ++ (when (elem receipt.receipt_id s.receipt_ids) (duplicate_receipt index)
          ++ (when (elem receipt.step_id s.step_ids) (duplicate_step index)
              ++ when (not (receipt.run_id == run_id)) (receipt_run_mismatch index)))

  unfoldable pub scan_receipt : String → ℕ → StepReceipt J → Scan → Scan
  unfolding receipt_errors
  scan_receipt run_id index receipt s = record {
    errors = s.errors ++ receipt_errors run_id index receipt s;
    receipt_ids = s.receipt_ids ++ receipt.receipt_id ∷ [];
    step_ids = s.step_ids ++ receipt.step_id ∷ [];
    successful_steps = s.successful_steps ++ when (is_success receipt.status) receipt.step_id;
  }

  unfoldable pub scan_receipts : String → ℕ → List (StepReceipt J) → Scan → Scan
  unfolding scan_receipt
  scan_receipts run_id index [] s = s
  scan_receipts run_id index (r ∷ rs) s =
      scan_receipts run_id (suc index) rs (scan_receipt run_id index r s)

  -- the tests after the loop
  unfoldable pub final_errors : RunSnapshot J E → Scan → List Problem
  final_errors s scan =
      let completed_ids = s.checkpoint.completed_step_ids in
      let pending_ids = s.checkpoint.pending_step_ids in
      let unknown =
        select (λ i. not (elem i completed_ids) && not (elem i pending_ids)) scan.step_ids in
      when (overlaps completed_ids pending_ids) not_disjoint
      ++ (when (not (is_empty unknown)) (unknown_steps (c.sorted unknown))
          ++ (when
                (not (
                  subset scan.successful_steps completed_ids
                  && subset completed_ids scan.successful_steps))
                completed_mismatch
              ++ (when (overlaps scan.successful_steps pending_ids) success_pending
                  ++ when (not (s.snapshot_digest == snapshot_digest s.content)) digest_mismatch)))

  unfoldable pub validate_run_snapshot : RunSnapshot J E → List Problem
  unfolding scan_receipts final_errors
  validate_run_snapshot s =
      let errors = c.snapshot_schema s in
      let scan = scan_receipts s.run_id 0 s.step_receipts (scan_start s) in
      if not (is_empty errors) then errors else scan.errors ++ final_errors s scan

  -- `errors = validate_run_snapshot(..)` and the `raise` under `if errors`
  abbrev pub require_valid : RunSnapshot J E → Result SnapshotError Unit
  require_valid s =
      guard (is_empty (validate_run_snapshot s)) (invalid_snapshot (validate_run_snapshot s))

  unfoldable pub create_run_snapshot :
      Checkpoint E
      → (step_receipts : List (StepReceipt J)) (state : String) (snapshot_id : Option String)
      → (snapshot_version : ℕ) (plan_identity subject_identity : Option J) (event_sequence : ℕ)
      → (created_at : Option String) (drawn_id now : String)
      → Result SnapshotError (RunSnapshot J E)
  create_run_snapshot checkpoint receipts state snapshot_id version plan subject sequence created_at
        drawn_id now =
      let content : Content J E = record {
        snapshot_id = text_or snapshot_id drawn_id;
        snapshot_version = version;
        run_id = checkpoint.run_id;
        state = state;
        checkpoint = checkpoint;
        step_receipts = receipts;
        event_sequence = sequence;
        created_at = text_or created_at now;
        plan_identity = plan;
        subject_identity = subject;
      } in
      let s : RunSnapshot J E = record {
        content = content;
        snapshot_digest = snapshot_digest content;
      } in
      do require_valid s; ok s

  unfoldable pub encode_run_snapshot : RunSnapshot J E → Result SnapshotError (List ℕ)
  encode_run_snapshot s = do
    require_valid s
    guard (not (ltb max_snapshot_bytes (length (c.dumps s)))) too_large
    ok (c.dumps s)

  -- what `json.loads` returned, checked
  unfoldable pub accept_loaded : Loaded J E → Result SnapshotError (RunSnapshot J E)
  accept_loaded no_json = raise malformed
  accept_loaded no_object = raise not_object
  accept_loaded (misshapen problems) = raise (invalid_snapshot problems)
  accept_loaded (snapshot s) = do require_valid s; ok s

  unfoldable pub decode_run_snapshot : List ℕ → Result SnapshotError (RunSnapshot J E)
  unfolding accept_loaded
  decode_run_snapshot raw = do
    guard (not (ltb max_snapshot_bytes (length raw))) too_large
    accept_loaded (c.loads raw)
