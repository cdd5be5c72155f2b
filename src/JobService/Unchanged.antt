-- ===== src/JobService/Unchanged.antt =====
-- What a call of `create` that fails leaves behind.
use pdx_artifact_engine.Prelude.{
  ℕ, String, List, Option, none, some, Result, ok, raise, string_eq, nat_eq, ◌≡◌, refl, sym, ap,
  ◌∙◌,
}
use pdx_artifact_engine.Actions.{
  Keeps, return-Keeps, throw-Keeps, require-Keeps, KeepsOnRaise, Keeps-KeepsOnRaise,
  bind-KeepsOnRaise, then-KeepsOnRaise, last-KeepsOnRaise,
}
use pdx_artifact_engine.Staging.{Bytes, StagingHandle, StagingStore, StagingError}
use pdx_artifact_engine.Jobs.Rows.{JobRow}
use pdx_artifact_engine.Jobs.Store.{JobRecord, StoreError, insert_job}
use pdx_artifact_engine.JobService.World.{
  World, Session, ServiceError, Outside, alone, store_get, store_get_by_idempotency, store_insert,
  staging_stage, inserted, staged,
}
use pdx_artifact_engine.JobService.Requests.{Body, JobCreate, validate_body}
use pdx_artifact_engine.JobService.Create.{
  status_doc, new_record, decoded_or_400, create_new, create_found, create,
}

module _ (o : Outside) (rows : List JobRow) where
  -- The table is as it was.
  abbrev Unchanged : Session → Type 0
  Unchanged s = s.world.rows ≡ rows

  staged_rows :
      (w : World) (e : ServiceError) (a : Result StagingError (StagingHandle × StagingStore))
      → (staged alone o w e a).1.rows ≡ w.rows
  staged_rows w e (ok (h, st)) = refl
  staged_rows w e (raise x) = refl

  inserted-raise :
      (w : World) (a : Result StoreError (List JobRow)) {e : ServiceError} {w' : World}
      → inserted alone o w a ≡ (raise e, w')
      → w ≡ w'
  inserted-raise w (ok x) h = absurd (cc)
  inserted-raise w (raise x) h = cc

  store_insert-KeepsOnRaise : (r : JobRecord) → KeepsOnRaise Unchanged (store_insert alone o r)
  unfolding store_insert
  store_insert-KeepsOnRaise r = record {
    keep = λ s {e} {t} p h.
        let same =
          inserted-raise s.world (insert_job o.json s.world.rows r) {e = e} {w' = t.world} (cc) in
        ap (λ (w : World). w.rows) (sym same) ∙ p;
  }

  staging_stage-Keeps :
      (payload : Bytes) (media_type digest : String) (now : ℕ) (drawn : String) (e : ServiceError)
      → Keeps Unchanged (staging_stage alone o payload media_type digest now drawn e)
  unfolding staging_stage
  staging_stage-Keeps payload media_type digest now drawn e = record {
    keep = λ s p. staged_rows s.world e _ ∙ p;
  }

  decoded-Keeps : (d : Option Bytes) → Keeps Unchanged (decoded_or_400 alone o d)
  decoded-Keeps none = throw-Keeps Unchanged _
  decoded-Keeps (some raw) = return-Keeps Unchanged raw

  create_new-KeepsOnRaise :
      (body : JobCreate) (now : ℕ) (drawn : String)
      → KeepsOnRaise Unchanged (create_new alone o body now drawn)
  unfolding create_new store_get
  create_new-KeepsOnRaise body now drawn =
      bind-KeepsOnRaise Unchanged (record { keep = λ s p. p })
        λ found. then-KeepsOnRaise Unchanged (require-Keeps Unchanged _ _) (
          bind-KeepsOnRaise Unchanged (decoded-Keeps (o.b64decode body.content_b64)) λ raw.
            then-KeepsOnRaise Unchanged (require-Keeps Unchanged _ _) (
              then-KeepsOnRaise Unchanged (require-Keeps Unchanged _ _) (
                bind-KeepsOnRaise Unchanged
                  (staging_stage-Keeps raw body.media_type (o.formats.sha256 raw) now drawn _)
                  λ h.
                    last-KeepsOnRaise Unchanged (status_doc body h)
                      (store_insert-KeepsOnRaise (new_record body h)))))

  create_found-KeepsOnRaise :
      (body : JobCreate) (now : ℕ) (drawn : String) (existing : Option JobRecord)
      → KeepsOnRaise Unchanged (create_found alone o body now drawn existing)
  create_found-KeepsOnRaise body now drawn none = create_new-KeepsOnRaise body now drawn
  create_found-KeepsOnRaise body now drawn (some r) =
      then-KeepsOnRaise Unchanged (require-Keeps Unchanged _ _)
        (Keeps-KeepsOnRaise Unchanged (return-Keeps Unchanged r.document))

  validate_body-Keeps : (request : Body JobCreate) → Keeps Unchanged (validate_body alone request)
  unfolding validate_body
  validate_body-Keeps none = throw-Keeps Unchanged _
  validate_body-Keeps (some body) = return-Keeps Unchanged body

  create-KeepsOnRaise :
      (request : Body JobCreate) (now : ℕ) (drawn : String)
      → KeepsOnRaise Unchanged (create alone o request now drawn)
  unfolding create store_get_by_idempotency
  create-KeepsOnRaise request now drawn =
      bind-KeepsOnRaise Unchanged (validate_body-Keeps request) λ body.
        bind-KeepsOnRaise Unchanged (record { keep = λ s p. p })
          (create_found-KeepsOnRaise body now drawn)

-- A call of `create` that fails, for whatever reason, leaves the table of jobs as it was, where nobody
-- else acts: a refused request, a conflict, a payload that does not decode or has another size or
-- digest, a full staging store, and an insertion that the table refuses.
pub create_error-rows :
    (o : Outside) (request : Body JobCreate) (now : ℕ) (drawn : String) (s t : Session)
    {e : ServiceError}
    → create alone o request now drawn s ≡ (raise e, t)
    → t.world.rows ≡ s.world.rows
create_error-rows o request now drawn s t h =
    (create-KeepsOnRaise o s.world.rows request now drawn).keep s refl h
