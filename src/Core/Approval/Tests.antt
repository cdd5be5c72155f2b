-- ===== src/Core/Approval/Tests.antt =====
-- Checkpoints, decisions and a resumed plan at concrete inputs.
use pdx_artifact_engine.Prelude.{
  String, List, [], ◌∷◌, ◌≡◌, refl, ok, raise, none, some, lookup, insert, string_eq, nat_eq, ℕ,
}
use pdx_artifact_engine.Core.Book.{empty_book, store, Keeps}
use pdx_artifact_engine.Core.Approval.Defs.{
  Step, Plan, Checkpoint, Decision, ApprovalLedger, ApprovalRequest, ApprovalError,
  create_checkpoint, create_approval_request, cancel_checkpoint, record_decision,
  build_resumed_plan, canonical_digest, get_by_checkpoint_id, get_by_idempotency_key,
}
use pdx_artifact_engine.Core.Approval.Checkpoint.{SharesOut, create-SharesOut}
use pdx_artifact_engine.Core.Approval.Ledger.{
  Calls, here, call, IsLedger, Calls-Keeps, Calls-IsLedger, replay_safe, one_decision,
}
use pdx_artifact_engine.Core.Approval.Resume.{ResumesPending, resume_pending}

program : Unit {0}
unfolding create_checkpoint create_approval_request cancel_checkpoint record_decision
    build_resumed_plan canonical_digest get_by_checkpoint_id get_by_idempotency_key lookup insert
program = tt

-- Payloads are texts, evidence is a number, and the hash of a plan is its title.
abbrev digest : Plan String → String
digest = canonical_digest (λ plan. plan.rest ∷ []) (λ parts. elim parts [ [] ↦ "" | p ∷ ps ↦ p ])

abbrev step : String → List String → Step String
step name deps = record { id = name; depends_on = some deps; rest = "" }

abbrev plan : Plan String
plan = record {
  steps = step "a" [] ∷ step "b" ("a" ∷ []) ∷ step "c" ("a" ∷ "b" ∷ []) ∷ [];
  rest = "title";
}

abbrev checkpoint : Checkpoint ℕ
checkpoint = record {
  checkpoint_id = "chk_1";
  run_id = "run";
  subject_digest = "subject";
  plan_digest = digest plan;
  completed_step_ids = "a" ∷ [];
  pending_step_ids = "b" ∷ "c" ∷ [];
  evidence_digests = 7;
  status = "pending";
  created_at = "now";
}

created :
    create_checkpoint digest plan "run" "subject" ("a" ∷ []) ("c" ∷ "b" ∷ []) 7 none "chk_1" "now"
    ≡ ok checkpoint
unfolding program
created = refl

refused :
    (create_checkpoint {E = ℕ} digest plan "run" "s" ("a" ∷ []) ("a" ∷ "b" ∷ []) 7 none "x" "now"
      ≡ raise ApprovalError.invalid_partition)
    × (create_checkpoint {E = ℕ} digest plan "run" "s" ("a" ∷ []) ("b" ∷ []) 7 none "x" "now"
        ≡ raise ApprovalError.incomplete_partition)
unfolding program
refused = (refl, refl)

abbrev request : ApprovalRequest ℕ
request = record {
  approval_request_id = "req";
  run_id = "run";
  checkpoint_id = "chk_1";
  subject_digest = "subject";
  plan_digest = digest plan;
  evidence_digests = 7;
  summary = "";
  created_at = "now";
  status = "pending";
}

requested : create_approval_request checkpoint "" "req" "now" ≡ ok request
unfolding program
requested = refl

abbrev decision : Decision String ℕ
decision = record {
  idempotency_key = some "key";
  checkpoint_id = some "chk_1";
  approval_request_id = some "req";
  subject_digest = some "subject";
  plan_digest = some (digest plan);
  evidence_digests = some 7;
  decision = some "approved";
  rest = "actor";
}

abbrev after : ApprovalLedger String ℕ
after = store empty_book "key" "chk_1" decision

recorded : record_decision empty_book checkpoint request decision ≡ ok (decision, after)
unfolding program
recorded = refl

again : record_decision after checkpoint request decision ≡ ok (decision, after)
unfolding program
again = refl

conflicts :
    (record_decision after checkpoint request (record decision { rest = "other" })
      ≡ raise ApprovalError.key_reused)
    × (record_decision after checkpoint request (record decision { idempotency_key = some "k2" })
        ≡ raise ApprovalError.already_decided)
    × (record_decision {J = String} {E = ℕ} empty_book checkpoint request
          (record decision { plan_digest = none })
        ≡ raise ApprovalError.plan_mismatch)
    × (record_decision {J = String} {E = ℕ} empty_book checkpoint request
          (record decision { idempotency_key = none })
        ≡ raise ApprovalError.key_required)
unfolding program
conflicts = (refl, refl, refl, refl)

found :
    (get_by_checkpoint_id after "chk_1" ≡ some decision)
    × (get_by_idempotency_key after "other" ≡ none)
unfolding program
found = (refl, refl)

cancelled :
    cancel_checkpoint (record checkpoint { status = "cancelled" }) ≡ raise ApprovalError.not_pending
unfolding program
cancelled = refl

abbrev resumed : Plan String
resumed = record { steps = step "b" [] ∷ step "c" ("b" ∷ []) ∷ []; rest = "title" }

resumes : build_resumed_plan digest plan checkpoint decision ≡ ok resumed
unfolding program
resumes = refl

create-SharesOut_example : SharesOut digest plan checkpoint "b"
create-SharesOut_example =
    create-SharesOut digest plan "run" "subject" ("a" ∷ []) ("c" ∷ "b" ∷ []) 7 none "chk_1" "now"
      created "b"

resume_pending_example : ResumesPending digest checkpoint decision resumed
resume_pending_example =
    resume_pending digest plan "run" "subject" ("a" ∷ []) ("c" ∷ "b" ∷ []) 7 none "chk_1" "now"
      decision created resumes

history : Calls empty_book after
history = call here checkpoint request decision recorded

Calls-Keeps_example : Keeps (empty_book {D = Decision String ℕ}) after
Calls-Keeps_example = Calls-Keeps history

Calls-IsLedger_example : IsLedger after
Calls-IsLedger_example = Calls-IsLedger history

replay_safe_example : record_decision after checkpoint request decision ≡ ok (decision, after)
replay_safe_example =
    replay_safe empty_book checkpoint checkpoint request request decision recorded here

one_decision_example : decision ≡ decision
one_decision_example =
    one_decision empty_book after checkpoint checkpoint request request decision decision here
      recorded here again refl
