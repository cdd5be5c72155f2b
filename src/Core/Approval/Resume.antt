-- ===== src/Core/Approval/Resume.antt =====
-- The plan that `build_resumed_plan` makes of a checkpoint's plan.
use pdx_artifact_engine.Prelude.{
  String, List, [], ◌∷◌, map, Bool, true, Option, some, ok, ◌≡◌, refl, ap, sym, ◌∙◌, arith, Eq,
  ==_iff, string_eq, option_eq, select, elem, all, elem-select, subset, ==_refl,
}
use pdx_artifact_engine.Core.Approval.Defs.{
  Step, Plan, Checkpoint, Decision, dependencies, resumed_step, resumed_plan, step_ids,
  create_checkpoint, build_resumed_plan,
}
use pdx_artifact_engine.Core.Approval.Checkpoint.{create-Created}

map-select :
    {J : Type 0} (p : String → Bool) (f : Step J → Step J) (steps : List (Step J))
    → ((s : Step J) → (f s).id ≡ s.id)
    → map (λ s. s.id) (map f (select (λ s. p s.id) steps)) ≡ select p (map (λ s. s.id) steps)
map-select p f [] same = refl
map-select p f (s ∷ steps) same = ground (arith, same s, map-select p f steps same)

select_twice :
    (p : String → Bool) (all_ids ids : List String)
    → subset ids all_ids ≡ true
    → select (λ i. elem i (select p all_ids)) ids ≡ select p ids
select_twice p all_ids [] within = refl
select_twice p all_ids (i ∷ ids) within =
    ground (arith, elem-select p i all_ids, select_twice p all_ids ids)

-- No dependency of the steps leads outside `pending`.
abbrev pub waits_within : {J : Type 0} → List String → List (Step J) → Bool
waits_within pending steps = all (λ step. subset (dependencies step) pending) steps

subset-select :
    (pending deps : List String) → subset (select (λ dep. elem dep pending) deps) pending ≡ true
subset-select pending [] = refl
subset-select pending (d ∷ deps) = ground (arith, subset-select pending deps)

resumed_waits_within :
    {J : Type 0} (pending : List String) (steps : List (Step J))
    → waits_within pending (map (resumed_step pending) steps) ≡ true
resumed_waits_within pending [] = refl
resumed_waits_within pending (s ∷ steps) =
    ground (arith, subset-select pending (dependencies s), resumed_waits_within pending steps)

subset-cons : (x : String) (xs ys : List String) → subset xs ys ≡ true → subset xs (x ∷ ys) ≡ true
subset-cons x [] ys h = refl
subset-cons x (z ∷ xs) ys h = ground (arith, subset-cons x xs ys)

subset_refl : (xs : List String) → subset xs xs ≡ true
subset_refl [] = refl
subset_refl (x ∷ xs) = ground (arith, ==_refl x, subset-cons x xs xs (subset_refl xs))

module _ {J E : Type 0} ⦃j : Eq J⦄ ⦃e : Eq E⦄ (digest : Plan J → String) where
  pub record Resumed (plan : Plan J) (checkpoint : Checkpoint E) (d : Decision J E)
      (resumed : Plan J) : Type 0 where
    pub approved : d.decision ≡ some "approved"
    pub unchanged : digest plan ≡ checkpoint.plan_digest
    pub for_checkpoint : d.checkpoint_id ≡ some checkpoint.checkpoint_id
    pub for_evidence : d.evidence_digests ≡ some checkpoint.evidence_digests
    pub result : resumed ≡ resumed_plan plan checkpoint.pending_step_ids

  build-Resumed :
      (plan : Plan J) (checkpoint : Checkpoint E) (d : Decision J E) {resumed : Plan J}
      → build_resumed_plan digest plan checkpoint d ≡ ok resumed
      → Resumed plan checkpoint d resumed
  unfolding build_resumed_plan
  build-Resumed plan checkpoint d h = record {
    approved = ground (arith, ==_iff d.decision (some "approved"));
    unchanged = ground (arith, ==_iff (digest plan) checkpoint.plan_digest);
    for_checkpoint = ground (arith, ==_iff d.checkpoint_id (some checkpoint.checkpoint_id));
    for_evidence = ground (arith, ==_iff d.evidence_digests (some checkpoint.evidence_digests));
    result = ground arith;
  }

  -- What resumes a checkpoint of a plan that has not changed.
  pub record ResumesPending (checkpoint : Checkpoint E) (d : Decision J E) (resumed : Plan J)
      : Type 0 where
    pub approved : d.decision ≡ some "approved"
    pub steps : step_ids resumed ≡ checkpoint.pending_step_ids
    pub closed : waits_within (step_ids resumed) resumed.steps ≡ true

  -- If a checkpoint of a plan was created and a decision resumes that plan from it, the decision is
  -- an approval, the resumed plan has exactly the pending steps, in the plan's order, and no step of
  -- it waits for a step outside it.
  pub resume_pending :
      (plan : Plan J) (run_id subject : String) (completed pending : List String) (evidence : E)
      (checkpoint_id : Option String) (drawn_id now : String) (d : Decision J E)
      {checkpoint : Checkpoint E} {resumed : Plan J}
      → create_checkpoint digest plan run_id subject completed pending evidence checkpoint_id
          drawn_id now
        ≡ ok checkpoint
      → build_resumed_plan digest plan checkpoint d ≡ ok resumed
      → ResumesPending checkpoint d resumed
  resume_pending plan run_id subject completed pending evidence checkpoint_id drawn_id now d
        {checkpoint} {resumed} h h' =
      let c =
        create-Created digest plan run_id subject completed pending evidence checkpoint_id drawn_id
          now h in
      let r = build-Resumed plan checkpoint d h' in
      let same : step_ids resumed ≡ checkpoint.pending_step_ids =
        ap step_ids r.result
        ∙ (map-select (λ i. elem i checkpoint.pending_step_ids)
              (resumed_step checkpoint.pending_step_ids) plan.steps (λ s. refl)
            ∙ (ap (λ ids. select (λ i. elem i ids) (step_ids plan)) c.pending_ids
                ∙ (select_twice (λ i. elem i pending) (step_ids plan) (step_ids plan)
                      (subset_refl (step_ids plan))
                    ∙ sym c.pending_ids))) in
      record {
        approved = r.approved;
        steps = same;
        closed =
            rw (same, r.result)
              (resumed_waits_within checkpoint.pending_step_ids
                (select (λ step. elem step.id checkpoint.pending_step_ids) plan.steps));
      }
