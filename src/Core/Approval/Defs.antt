-- ===== src/Core/Approval/Defs.antt =====
-- The functions of approval.py.
use pdx_artifact_engine.Prelude.{
  is_some, String, List, [], ◌++◌, map, Bool, true, Option, none, some, Result, ok, raise, ◌>>◌,
  guard, not, ◌&&◌, ◌||◌, ◌≡◌, ◌↔◌, arith, Eq, ◌==◌, ==_iff, string_eq, option_eq, if◌then◌else◌,
  select, elem, subset, overlaps, lookup, option_beq_iff,
}
use pdx_artifact_engine.Core.Book.{Book, store}

-- A step of a plan; `depends_on` may be absent.
pub record Step (J : Type 0) : Type 0 where
  pub id : String
  pub depends_on : Option (List String)
  pub rest : J

pub record Plan (J : Type 0) : Type 0 where
  pub steps : List (Step J)
  pub rest : J

pub data ApprovalError : Type 0 where
  invalid_partition incomplete_partition not_pending : ApprovalError
  key_required key_reused already_decided invalid_decision : ApprovalError
  checkpoint_mismatch request_mismatch subject_mismatch plan_mismatch evidence_mismatch :
      ApprovalError
  not_approved plan_changed : ApprovalError

pub record Checkpoint (E : Type 0) : Type 0 where
  pub checkpoint_id : String
  pub run_id : String
  pub subject_digest : String
  pub plan_digest : String
  pub completed_step_ids : List String
  pub pending_step_ids : List String
  pub evidence_digests : E
  pub status : String
  pub created_at : String

pub record ApprovalRequest (E : Type 0) : Type 0 where
  pub approval_request_id : String
  pub run_id : String
  pub checkpoint_id : String
  pub subject_digest : String
  pub plan_digest : String
  pub evidence_digests : E
  pub summary : String
  pub created_at : String
  pub status : String

-- A decision as a caller hands it in: any field may be absent. `rest` is the other content.
pub record Decision (J E : Type 0) : Type 0 where
  pub idempotency_key : Option String
  pub checkpoint_id : Option String
  pub approval_request_id : Option String
  pub subject_digest : Option String
  pub plan_digest : Option String
  pub evidence_digests : Option E
  pub decision : Option String
  pub rest : J

-- `hashlib.sha256(json.dumps(value, sort_keys=True, ..).encode("utf-8")).hexdigest()`: the encoder
-- and the hash are arguments.
unfoldable pub canonical_digest :
    {V : Type 0} → (V → List String) → (List String → String) → V → String
canonical_digest dumps sha256 value = sha256 (dumps value)

abbrev pub step_ids : {J : Type 0} → Plan J → List String
step_ids plan = map (λ s. s.id) plan.steps

-- `value or default`
abbrev pub text_or : Option String → String → String
text_or none default = default
text_or (some t) default = if t == "" then default else t

module _ {J E : Type 0} (digest : Plan J → String) where
  unfoldable pub create_checkpoint :
      (plan : Plan J) (run_id subject_digest : String) (completed pending : List String)
      → E
      → (checkpoint_id : Option String) (drawn_id now : String)
      → Result ApprovalError (Checkpoint E)
  create_checkpoint plan run_id subject_digest completed pending evidence checkpoint_id drawn_id
        now =
      do
        guard (not (overlaps completed pending) && subset (completed ++ pending) (step_ids plan))
            invalid_partition
        guard (subset (step_ids plan) (completed ++ pending)) incomplete_partition
        ok (record {
          checkpoint_id = text_or checkpoint_id drawn_id;
          run_id = run_id;
          subject_digest = subject_digest;
          plan_digest = digest plan;
          completed_step_ids = select (λ item. elem item completed) (step_ids plan);
          pending_step_ids = select (λ item. elem item pending) (step_ids plan);
          evidence_digests = evidence;
          status = "pending";
          created_at = now;
        })

unfoldable pub create_approval_request :
    {E : Type 0}
    → Checkpoint E
    → (summary drawn_id now : String) → Result ApprovalError (ApprovalRequest E)
create_approval_request checkpoint summary drawn_id now = do
  guard (checkpoint.status == "pending") not_pending
  ok (record {
    approval_request_id = drawn_id;
    run_id = checkpoint.run_id;
    checkpoint_id = checkpoint.checkpoint_id;
    subject_digest = checkpoint.subject_digest;
    plan_digest = checkpoint.plan_digest;
    evidence_digests = checkpoint.evidence_digests;
    summary = summary;
    created_at = now;
    status = "pending";
  })

unfoldable pub cancel_checkpoint : {E : Type 0} → Checkpoint E → Result ApprovalError (Checkpoint E)
cancel_checkpoint checkpoint = do
  guard (checkpoint.status == "pending") not_pending
  ok (record checkpoint { status = "cancelled" })

-- `str(decision.get("idempotency_key", ""))`
abbrev pub key_of : {J E : Type 0} → Decision J E → String
key_of d = elim d.idempotency_key [ none ↦ "" | some k ↦ k ]

-- `step["depends_on"]`, or no dependency
abbrev pub dependencies : {J : Type 0} → Step J → List String
dependencies step = elim step.depends_on [ none ↦ [] | some deps ↦ deps ]

abbrev pub resumed_step : {J : Type 0} → List String → Step J → Step J
resumed_step pending step = record step {
  depends_on = some (select (λ dep. elem dep pending) (dependencies step));
}

-- The plan with its pending steps, and what they wait for among themselves.
abbrev pub resumed_plan : {J : Type 0} → Plan J → List String → Plan J
resumed_plan plan pending = record plan {
  steps = map (resumed_step pending) (select (λ step. elem step.id pending) plan.steps);
}

-- `ApprovalLedger`: each method runs under the ledger's lock, as one step.
abbrev pub ApprovalLedger : Type 0 → Type 0 → Type 0
ApprovalLedger J E = Book (Decision J E)

unfoldable pub get_by_idempotency_key :
    {J E : Type 0} → ApprovalLedger J E → String → Option (Decision J E)
get_by_idempotency_key ledger key = lookup key ledger.by_key

unfoldable pub get_by_checkpoint_id :
    {J E : Type 0} → ApprovalLedger J E → String → Option (Decision J E)
get_by_checkpoint_id ledger checkpoint_id = lookup checkpoint_id ledger.by_checkpoint

module _ {J E : Type 0} ⦃j : Eq J⦄ ⦃e : Eq E⦄ where
  abbrev pub decision_beq : Decision J E → Decision J E → Bool
  decision_beq a b =
      (a.idempotency_key == b.idempotency_key && a.checkpoint_id == b.checkpoint_id)
      && ((a.approval_request_id == b.approval_request_id && a.subject_digest == b.subject_digest)
          && ((a.plan_digest == b.plan_digest && a.evidence_digests == b.evidence_digests)
              && (a.decision == b.decision && a.rest == b.rest)))

  pub decision_beq_iff : (a b : Decision J E) → (decision_beq a b ≡ true) ↔ (a ≡ b)
  decision_beq_iff a b = ground (
    arith,
    option_beq_iff a.idempotency_key b.idempotency_key,
    option_beq_iff a.checkpoint_id b.checkpoint_id,
    option_beq_iff a.approval_request_id b.approval_request_id,
    option_beq_iff a.subject_digest b.subject_digest,
    option_beq_iff a.plan_digest b.plan_digest,
    option_beq_iff a.evidence_digests b.evidence_digests,
    option_beq_iff a.decision b.decision,
    ==_iff a.rest b.rest,
  )

  instance abbrev pub decision_eq : Eq (Decision J E)
  decision_eq = record { equals = decision_beq; equals_iff = decision_beq_iff }

  -- the loop over `pairs`
  check_pairs : Checkpoint E → ApprovalRequest E → Decision J E → Result ApprovalError Unit
  check_pairs checkpoint request d = do
    guard (d.checkpoint_id == some checkpoint.checkpoint_id) checkpoint_mismatch
    guard (d.approval_request_id == some request.approval_request_id) request_mismatch
    guard (d.subject_digest == some checkpoint.subject_digest) subject_mismatch
    guard (d.plan_digest == some checkpoint.plan_digest) plan_mismatch
    guard (d.evidence_digests == some checkpoint.evidence_digests) evidence_mismatch

  -- what `record` does once the key is new
  record_new :
      ApprovalLedger J E
      → String
      → Checkpoint E
      → ApprovalRequest E
      → Decision J E
      → Result ApprovalError (Decision J E × ApprovalLedger J E)
  unfolding check_pairs
  record_new ledger key checkpoint request d = do
    guard
        (checkpoint.status == "pending"
          && not (is_some (lookup checkpoint.checkpoint_id ledger.by_checkpoint)))
        already_decided
    check_pairs checkpoint request d
    guard (d.decision == some "approved" || d.decision == some "rejected") invalid_decision
    ok (d, store ledger key checkpoint.checkpoint_id d)

  -- `ApprovalLedger.record`: the decision that stands, and the ledger after the call.
  unfoldable pub record_decision :
      ApprovalLedger J E
      → Checkpoint E
      → ApprovalRequest E
      → Decision J E
      → Result ApprovalError (Decision J E × ApprovalLedger J E)
  unfolding record_new
  record_decision ledger checkpoint request d = do
    guard (not (key_of d == "")) key_required
    elim (lookup (key_of d) ledger.by_key) [
      | none ↦ record_new ledger (key_of d) checkpoint request d
      | some existing ↦ if existing == d then ok (existing, ledger) else raise key_reused
    ]

  module _ (digest : Plan J → String) where
    unfoldable pub build_resumed_plan :
        Plan J → Checkpoint E → Decision J E → Result ApprovalError (Plan J)
    build_resumed_plan plan checkpoint d = do
      guard (d.decision == some "approved") not_approved
      guard (digest plan == checkpoint.plan_digest) plan_changed
      guard (d.checkpoint_id == some checkpoint.checkpoint_id) checkpoint_mismatch
      guard (d.subject_digest == some checkpoint.subject_digest) subject_mismatch
      guard (d.plan_digest == some checkpoint.plan_digest) plan_mismatch
      guard (d.evidence_digests == some checkpoint.evidence_digests) evidence_mismatch
      ok (resumed_plan plan checkpoint.pending_step_ids)
