-- ===== src/Worker/Invariant.antt =====
-- What holds throughout the work of a worker, if each of its calls keeps it.
use pdx_artifact_engine.Prelude.{
  ℕ, ◌+◌, String, Bool, true, false, Option, none, some, Dict, Value, ltb,
}
use pdx_artifact_engine.Actions.{Keeps, bind-Keeps, then-Keeps, return-Keeps}
use pdx_artifact_engine.Jobs.Store.{JobRecord}
use pdx_artifact_engine.JobService.World.{
  World, Session, Outside, store_get, store_update, store_holds, lost_is_set, set_lost,
  staging_read, staging_delete,
}
use pdx_artifact_engine.JobService.Finalize.{
  finalize, finalized, finish_finalize, delete_staging, handle_of,
}
use pdx_artifact_engine.Worker.Lease.{
  JobWorker, lease_lost, test_lease, lost_if, finalize_claim, finalize_if_held, lost_unless,
  update_claim, update_if_held, updated_or_lost, maybe_retry_or_fail, retry_or_fail, given_back,
}

-- A property of sessions that the calls of a worker with a token keep, and those of its Kernel.
pub record IsInvariant (others : ℕ → World → World) (o : Outside) (token : String)
    (P : Session → Type 0) : Type 0 where
  pub updates : (r : JobRecord) → Keeps P (store_update others o r (some token))
  pub holds : (id owner t : String) → Keeps P (store_holds others id owner t)
  pub lost : Keeps P (lost_is_set others)
  pub sets_lost : (b : Bool) → Keeps P (set_lost others b)
  pub gets : (id : String) → Keeps P (store_get others o id)
  pub reads : (handle : String) (now : ℕ) → Keeps P (staging_read others o handle now)
  pub deletes : (handle : String) → Keeps P (staging_delete others o handle)
  pub asks : (s : Session) → P s → P (record s { tick = s.tick + 1; world = others s.tick s.world })

module _ (others : ℕ → World → World) (o : Outside) (me : JobWorker) (token : String)
    (P : Session → Type 0) (inv : IsInvariant others o token P) where
  lost_if-Keeps : (b : Bool) → Keeps P (lost_if others o me token b)
  lost_if-Keeps true = return-Keeps P false
  lost_if-Keeps false = then-Keeps P (inv.sets_lost true) (return-Keeps P true)

  test_lease-Keeps : (id : String) (b : Bool) → Keeps P (test_lease others o me token id b)
  test_lease-Keeps id true = return-Keeps P true
  test_lease-Keeps id false = bind-Keeps P (inv.holds id me.owner token) lost_if-Keeps

  pub lease_lost-Keeps : (id : String) → Keeps P (lease_lost others o me token id)
  unfolding lease_lost
  lease_lost-Keeps id = bind-Keeps P inv.lost (test_lease-Keeps id)

  delete_staging-Keeps : (handle : Option String) → Keeps P (delete_staging others o handle)
  delete_staging-Keeps none = return-Keeps P tt
  delete_staging-Keeps (some handle) = inv.deletes handle

  finish_finalize-Keeps :
      (handle : Option String) (updated : Dict Value) (b : Bool)
      → Keeps P (finish_finalize others o handle updated b)
  finish_finalize-Keeps handle updated false = return-Keeps P none
  finish_finalize-Keeps handle updated true =
      then-Keeps P (delete_staging-Keeps handle) (return-Keeps P (some updated))

  finalize-Keeps :
      (r : JobRecord) (state : String) (error : Option (Dict Value))
      → Keeps P (finalize others o r state error (some token))
  unfolding finalize
  finalize-Keeps r state error =
      bind-Keeps P (inv.updates (finalized r state error))
        (finish_finalize-Keeps (handle_of o r.document) (finalized r state error).document)

  lost_unless-Keeps : {A : Type 0} (a : Option A) → Keeps P (lost_unless others o me token a)
  lost_unless-Keeps none = inv.sets_lost true
  lost_unless-Keeps (some a) = return-Keeps P tt

  finalize_if_held-Keeps :
      (r : JobRecord) (state : String) (error : Option (Dict Value)) (b : Bool)
      → Keeps P (finalize_if_held others o me token r state error b)
  finalize_if_held-Keeps r state error true = return-Keeps P tt
  finalize_if_held-Keeps r state error false =
      bind-Keeps P (finalize-Keeps r state error) lost_unless-Keeps

  pub finalize_claim-Keeps :
      (r : JobRecord) (state : String) (error : Option (Dict Value))
      → Keeps P (finalize_claim others o me token r state error)
  unfolding finalize_claim
  finalize_claim-Keeps r state error =
      bind-Keeps P (lease_lost-Keeps r.job_id) (finalize_if_held-Keeps r state error)

  updated_or_lost-Keeps : (b : Bool) → Keeps P (updated_or_lost others o me token b)
  updated_or_lost-Keeps true = return-Keeps P true
  updated_or_lost-Keeps false = then-Keeps P (inv.sets_lost true) (return-Keeps P false)

  update_if_held-Keeps : (r : JobRecord) (b : Bool) → Keeps P (update_if_held others o me token r b)
  update_if_held-Keeps r true = return-Keeps P false
  update_if_held-Keeps r false = bind-Keeps P (inv.updates r) updated_or_lost-Keeps

  update_claim-Keeps : (r : JobRecord) → Keeps P (update_claim others o me token r)
  unfolding update_claim
  update_claim-Keeps r = bind-Keeps P (lease_lost-Keeps r.job_id) (update_if_held-Keeps r)

  retry_or_fail-Keeps : (r : JobRecord) (b : Bool) → Keeps P (retry_or_fail others o me token r b)
  retry_or_fail-Keeps r true =
      bind-Keeps P (update_claim-Keeps (given_back r)) (λ _. return-Keeps P tt)
  retry_or_fail-Keeps r false = finalize_claim-Keeps r "failed" _

  pub maybe_retry_or_fail-Keeps :
      (r : JobRecord) → Keeps P (maybe_retry_or_fail others o me token r)
  unfolding maybe_retry_or_fail
  maybe_retry_or_fail-Keeps r = retry_or_fail-Keeps r (ltb r.attempt_count me.max_attempts)
