-- ===== src/Core/Approval/Checkpoint.antt =====
-- What `create_checkpoint` promises of the steps of a plan.
use pdx_artifact_engine.Prelude.{
  String, List, ◌++◌, true, false, Option, ok, guard, guard_passed, >>-eq-ok, not, ◌&&◌, ◌||◌, ◌≡◌,
  ap, ◌∙◌, arith, string_eq, select, elem, subset, overlaps, elem-append, elem-select, subset-elem,
  not-overlaps-elem, &&-eq-true,
}
use pdx_artifact_engine.Core.Approval.Defs.{Plan, Checkpoint, step_ids, create_checkpoint}

module _ {J E : Type 0} (digest : Plan J → String) where
  module _ (plan : Plan J) (run_id subject : String) (completed pending : List String)
      (evidence : E) (checkpoint_id : Option String) (drawn_id now : String) where
    pub record Created (checkpoint : Checkpoint E) : Type 0 where
      pub disjoint : overlaps completed pending ≡ false
      pub known : subset (completed ++ pending) (step_ids plan) ≡ true
      pub complete : subset (step_ids plan) (completed ++ pending) ≡ true
      pub completed_ids :
          checkpoint.completed_step_ids ≡ select (λ item. elem item completed) (step_ids plan)
      pub pending_ids :
          checkpoint.pending_step_ids ≡ select (λ item. elem item pending) (step_ids plan)
      pub plan_digest : checkpoint.plan_digest ≡ digest plan
      pub status : checkpoint.status ≡ "pending"

    pub create-Created :
        {checkpoint : Checkpoint E}
        → create_checkpoint digest plan run_id subject completed pending evidence checkpoint_id
            drawn_id now
          ≡ ok checkpoint
        → Created checkpoint
    unfolding create_checkpoint
    create-Created {checkpoint} h =
        let (g, rest) =
          >>-eq-ok
            (guard
              (not (overlaps completed pending) && subset (completed ++ pending) (step_ids plan)) _)
            _ h in
        let (g', same) =
          >>-eq-ok (guard (subset (step_ids plan) (completed ++ pending)) _) _ rest in
        let first : (not (overlaps completed pending)
              && subset (completed ++ pending) (step_ids plan))
            ≡ true =
          (guard_passed _ _ _ h).0 in
        let second : subset (step_ids plan) (completed ++ pending) ≡ true =
          (guard_passed _ _ _ rest).0 in
        record {
          disjoint = ground arith;
          known = (&&-eq-true _ _ first).1;
          complete = second;
          completed_ids = ground arith;
          pending_ids = ground arith;
          plan_digest = ground arith;
          status = ground arith;
        }

  -- A step of the plan stands in exactly one of the two lists, and nothing else in either.
  pub record SharesOut (plan : Plan J) (checkpoint : Checkpoint E) (step_id : String) : Type 0 where
    pub covered :
        elem step_id (step_ids plan)
        ≡ (elem step_id checkpoint.completed_step_ids || elem step_id checkpoint.pending_step_ids)
    pub once :
        (elem step_id checkpoint.completed_step_ids && elem step_id checkpoint.pending_step_ids)
        ≡ false

  -- If `create_checkpoint` succeeds, the two lists of the checkpoint share the plan's steps out: a
  -- step of the plan stands in exactly one of them, and nothing else stands in either.
  pub create-SharesOut :
      (plan : Plan J) (run_id subject : String) (completed pending : List String) (evidence : E)
      (checkpoint_id : Option String) (drawn_id now : String) {checkpoint : Checkpoint E}
      → create_checkpoint digest plan run_id subject completed pending evidence checkpoint_id
          drawn_id now
        ≡ ok checkpoint
      → (step_id : String) → SharesOut plan checkpoint step_id
  create-SharesOut plan run_id subject completed pending evidence checkpoint_id drawn_id now
        {checkpoint} h s =
      let c =
        create-Created plan run_id subject completed pending evidence checkpoint_id drawn_id now
          h in
      let e1 =
        ap (elem s) c.completed_ids ∙ elem-select (λ item. elem item completed) s (step_ids plan) in
      let e2 =
        ap (elem s) c.pending_ids ∙ elem-select (λ item. elem item pending) s (step_ids plan) in
      record {
        covered = ground (
          arith,
          subset-elem (step_ids plan) (completed ++ pending) s c.complete,
          elem-append s completed pending,
        );
        once = ground (arith, not-overlaps-elem completed pending s c.disjoint);
      }
