-- ===== src/JobService/Writes.antt =====
-- What the single steps of `create` tell, where they succeed and nobody else acts.
use pdx_artifact_engine.Prelude.{
  ℕ, ◌+◌, ◌≤◌, String, List, [], ◌∷◌, ◌++◌, false, Option, none, some, Result, ok, raise, not, ◌&&◌,
  any, nat_eq, string_eq, if◌then◌else◌, ◌≡◌, refl, sym, ap, ◌∙◌, arith, ltb, guard_passed,
  >>=-eq-ok,
}
use pdx_artifact_engine.Actions.{return, throw}
use pdx_artifact_engine.Staging.{
  Bytes, StagingHandle, StagingStore, StagingError, stage, read_bytes, delete,
}
use pdx_artifact_engine.Staging.Files.{read-stage}
use pdx_artifact_engine.Jobs.Rows.{JobRow, has_id, has_key}
use pdx_artifact_engine.Jobs.Store.{
  JobRecord, StoreError, Json, get_by_idempotency, insert_job, row_of, dump_result, holds_content,
}
use pdx_artifact_engine.JobService.World.{
  World, Session, ServiceError, Outside, alone, store_get_by_idempotency, store_insert,
  staging_stage, inserted, staged,
}
use pdx_artifact_engine.JobService.Requests.{Body, JobCreate, validate_body}
use pdx_artifact_engine.JobService.Create.{new_record, decoded_or_400}

pub new_rows :
    (c : Json) (rows : List JobRow) (r : JobRecord) {rows' : List JobRow}
    → dump_result c r ≡ ok none
    → insert_job c rows r ≡ ok rows'
    → rows' ≡ rows ++ row_of c r none ∷ []
unfolding insert_job
new_rows c rows r {rows'} none_yet h =
    let (g1, h1) = guard_passed (not (holds_content (c.dumps r.document))) _ _ h in
    let (json, g2, h2) = >>=-eq-ok (dump_result c r) _ h1 in
    let (g3, h3) =
      guard_passed (not (any (has_id r.job_id) rows) && not (any (has_key r.idempotency_key) rows))
        _ _ h2 in
    let nothing : none ≡ json = cc in
    let same : rows ++ row_of c r json ∷ [] ≡ rows' = cc h3 in
    sym same ∙ ap (λ j. rows ++ row_of c r j ∷ []) (sym nothing)

-- the single calls
pub validate_body-eq-ok :
    (request : Body JobCreate) {s t : Session} {body : JobCreate}
    → validate_body alone request s ≡ (ok body, t)
    → (request ≡ some body) × (s ≡ t)
unfolding validate_body return throw
validate_body-eq-ok none h = absurd (cc)
validate_body-eq-ok (some b) h = (cc, cc)

pub store_get_by_idempotency-eq-ok :
    (o : Outside) (key : String) (s : Session) {t : Session} {found : Option JobRecord}
    → store_get_by_idempotency alone o key s ≡ (ok found, t)
    → (found ≡ get_by_idempotency o.json s.world.rows key) × (t.world ≡ s.world)
unfolding store_get_by_idempotency
store_get_by_idempotency-eq-ok o key s h = (cc, cc)

pub decoded_or_400-eq-ok :
    (o : Outside) (d : Option Bytes) {s t : Session} {raw : Bytes}
    → decoded_or_400 alone o d s ≡ (ok raw, t)
    → (d ≡ some raw) × (s ≡ t)
unfolding return throw
decoded_or_400-eq-ok o none h = absurd (cc)
decoded_or_400-eq-ok o (some b) h = (cc, cc)

-- what a store's answer tells of the world after the call
staged-ok :
    (o : Outside) (w w' : World) (e : ServiceError)
    (a : Result StagingError (StagingHandle × StagingStore)) {h : StagingHandle}
    → staged alone o w e a ≡ (ok h, w')
    → (a ≡ ok (h, w'.staging)) × (w'.rows ≡ w.rows)
staged-ok o w w' e (ok (h', st)) h = (cc, cc)
staged-ok o w w' e (raise x) h = absurd (cc)

pub staging_stage-eq-ok :
    (o : Outside) (payload : Bytes) (media_type digest : String) (now : ℕ) (drawn : String)
    (e : ServiceError) (s : Session) {t : Session} {h : StagingHandle}
    → staging_stage alone o payload media_type digest now drawn e s ≡ (ok h, t)
    → (stage o.formats s.world.staging payload media_type (some digest) now drawn
        ≡ ok (h, t.world.staging))
      × (t.world.rows ≡ s.world.rows)
unfolding staging_stage
staging_stage-eq-ok o payload media_type digest now drawn e s {t} {h} p =
    staged-ok o s.world t.world e _ (cc)

inserted-ok :
    (o : Outside) (w w' : World) (a : Result StoreError (List JobRow)) {u : Unit}
    → inserted alone o w a ≡ (ok u, w')
    → (a ≡ ok w'.rows) × (w'.staging ≡ w.staging)
inserted-ok o w w' (ok rows) h = (cc, cc)
inserted-ok o w w' (raise x) h = absurd (cc)

pub store_insert-eq-ok :
    (o : Outside) (r : JobRecord) (s : Session) {t : Session} {u : Unit}
    → store_insert alone o r s ≡ (ok u, t)
    → (insert_job o.json s.world.rows r ≡ ok t.world.rows) × (t.world.staging ≡ s.world.staging)
unfolding store_insert
store_insert-eq-ok o r s {t} {u} h = inserted-ok o s.world t.world _ {u = u} (cc)

pub new_record-result :
    (o : Outside) (body : JobCreate) (h : StagingHandle)
    → dump_result o.json (new_record body h) ≡ ok none
unfolding dump_result
new_record-result o body h = refl

pub still_there :
    (o : Outside) (st st' : StagingStore) (raw : Bytes) (media_type digest : String) (now : ℕ)
    (drawn : String) (h : StagingHandle)
    → stage o.formats st raw media_type (some digest) now drawn ≡ ok (h, st')
    → (later : ℕ) → later ≤ now + st.ttl_seconds
    → read_bytes st' h.handle later ≡ (some raw, st')
still_there o st st' raw media_type digest now drawn h staged later le =
    let in_time : ltb (now + st.ttl_seconds) later ≡ false = ground arith in
    let answer = (read-stage o.formats st raw media_type (some digest) now later drawn staged).0 in
    answer ∙ ap (λ b. if b then (none, delete st' h.handle) else (some raw, st')) in_time
