-- ===== src/JobService/Created.antt =====
-- What `create` leaves behind.
use pdx_artifact_engine.Prelude.{
  ℕ, ◌+◌, ◌≤◌, String, [], ◌∷◌, ◌++◌, true, Option, none, some, ok, Dict, Value, ◌==◌, ==_iff,
  nat_eq, string_eq, ◌≡◌, refl, sym, ap, ◌∙◌, subst, arith, ◌⊎◌, inl, inr, length, is_none,
}
use mathlib.Core.Path.{subst₃}
use pdx_artifact_engine.Actions.{bind-eq-ok, then-eq-ok, require_then-eq-ok, return-eq-ok}
use pdx_artifact_engine.Staging.{Bytes, StagingHandle, stage, read_bytes}
use pdx_artifact_engine.Staging.Files.{stage-Staged}
use pdx_artifact_engine.Jobs.Store.{JobRecord, get, get_by_idempotency, insert_job, row_of}
use pdx_artifact_engine.JobService.World.{
  World, Session, Outside, alone, store_get, store_get_by_idempotency, store_insert,
}
use pdx_artifact_engine.JobService.Requests.{Body, JobCreate, validate_body}
use pdx_artifact_engine.JobService.Create.{
  status_doc, new_record, decoded_or_400, create_new, create_found, create,
}
use pdx_artifact_engine.JobService.Calls.{store_get-eq-ok}
use pdx_artifact_engine.JobService.Writes.{
  new_rows, validate_body-eq-ok, store_get_by_idempotency-eq-ok, decoded_or_400-eq-ok,
  staging_stage-eq-ok, store_insert-eq-ok, new_record-result, still_there,
}

-- A job that a call of `create` has added.
pub record IsCreated (o : Outside) (w w' : World) (body : JobCreate) (now : ℕ) (drawn : String)
    (document : Dict Value) : Type 0 where
  pub raw : Bytes
  pub h : StagingHandle
  pub decoded : o.b64decode body.content_b64 ≡ some raw
  pub sized : length raw ≡ body.decoded_size_bytes
  pub digest : o.formats.sha256 raw ≡ body.input_digest
  pub said_digest : h.sha256 ≡ body.input_digest
  pub said_size : h.size_bytes ≡ body.decoded_size_bytes
  pub new_id : get o.json w.rows body.job_id ≡ none
  pub added : w'.rows ≡ w.rows ++ row_of o.json (new_record body h) none ∷ []
  pub document_is : document ≡ status_doc body h
  pub readable :
      (later : ℕ)
      → later ≤ now + w.staging.ttl_seconds
      → read_bytes w'.staging h.handle later ≡ (some raw, w'.staging)

-- The calls of `create_new`, each with what it answered: the world before and after both writes.
IsCreated-of :
    (o : Outside) (w staged_w w' : World) (body : JobCreate) (now : ℕ) (drawn : String)
    (raw : Bytes) (h : StagingHandle)
    → is_none (get o.json w.rows body.job_id) ≡ true
    → o.b64decode body.content_b64 ≡ some raw
    → length raw ≡ body.decoded_size_bytes
    → o.formats.sha256 raw ≡ body.input_digest
    → stage o.formats w.staging raw body.media_type (some (o.formats.sha256 raw)) now drawn
      ≡ ok (h, staged_w.staging)
    → staged_w.rows ≡ w.rows
    → insert_job o.json staged_w.rows (new_record body h) ≡ ok w'.rows
    → w'.staging ≡ staged_w.staging
    → IsCreated o w w' body now drawn (status_doc body h)
IsCreated-of o w staged_w w' body now drawn raw h absent decoded size digest is_staged same_rows
      is_inserted same_files =
    let st =
      stage-Staged o.formats w.staging raw body.media_type (some (o.formats.sha256 raw)) now drawn
        is_staged in
    record {
      raw = raw;
      h = h;
      decoded = decoded;
      sized = size;
      digest = digest;
      said_digest = ap (λ (x : StagingHandle). x.sha256) st.described ∙ digest;
      said_size = ap (λ (x : StagingHandle). x.size_bytes) st.described ∙ size;
      new_id = ground arith;
      added =
          new_rows o.json staged_w.rows (new_record body h) (new_record-result o body h) is_inserted
          ∙ ap (λ rows. rows ++ row_of o.json (new_record body h) none ∷ []) same_rows;
      document_is = refl;
      readable = λ later le.
          subst (λ x. read_bytes x h.handle later ≡ (some raw, x)) (sym same_files)
            (still_there o w.staging staged_w.staging raw body.media_type (o.formats.sha256 raw) now
              drawn h is_staged later le);
    }

create_new-IsCreated :
    (o : Outside) (body : JobCreate) (now : ℕ) (drawn : String) (s : Session) {t : Session}
    {document : Dict Value}
    → create_new alone o body now drawn s ≡ (ok document, t)
    → IsCreated o s.world t.world body now drawn document
unfolding create_new
create_new-IsCreated o body now drawn s {t} {document} h =
    let (found, s1, g, h1) = bind-eq-ok (store_get alone o body.job_id) _ h in
    let (g1, g2) = store_get-eq-ok o body.job_id s g in
    let (absent, h2) = require_then-eq-ok (is_none found) _ _ h1 in
    let (raw, s2, d, h3) =
      bind-eq-ok (decoded_or_400 alone o (o.b64decode body.content_b64)) _ h2 in
    let (d1, d2) = decoded_or_400-eq-ok o (o.b64decode body.content_b64) d in
    let (size, h4) = require_then-eq-ok (length raw == body.decoded_size_bytes) _ _ h3 in
    let (digest, h5) = require_then-eq-ok (o.formats.sha256 raw == body.input_digest) _ _ h4 in
    let (handle, s3, a, h6) = bind-eq-ok _ _ h5 in
    let (a1, a2) =
      staging_stage-eq-ok o raw body.media_type (o.formats.sha256 raw) now drawn _ s2 a in
    let (u, s4, i, h7) = then-eq-ok (store_insert alone o (new_record body handle)) _ h6 in
    let (i1, i2) = store_insert-eq-ok o (new_record body handle) s3 i in
    let (e1, e2) = return-eq-ok (status_doc body handle) h7 in
    let there : s.world ≡ s2.world = sym (ap (λ (x : Session). x.world) (sym d2) ∙ g2) in
    let ended : s4.world ≡ t.world = ap (λ (x : Session). x.world) e2 in
    let created =
      IsCreated-of o s2.world s3.world s4.world body now drawn raw handle
        (ap (λ (x : World). is_none (get o.json x.rows body.job_id)) (sym there)
          ∙ ap is_none (sym g1)
          ∙ absent)
        d1 ((==_iff (length raw) body.decoded_size_bytes).0 size)
        ((==_iff (o.formats.sha256 raw) body.input_digest).0 digest) a1 a2 i1 i2 in
    subst₃ (λ x y d. IsCreated o x y body now drawn d) (sym there) ended e1 created

-- A call of `create` that succeeds, where nobody else acts, is of one of two kinds. If the idempotency
-- key names a job, that job has the digest of the operation that the request asks for, its document is
-- the answer, and nothing is written. If the key is new, then so is the job id; the decoded payload has
-- the size and the digest that the request says; exactly one row is added, that of a pending job
-- whose document is the answer; and until it expires the payload is read back, byte for byte, under the
-- handle that the document carries.
pub create-IsCreated :
    (o : Outside) (request : Body JobCreate) (now : ℕ) (drawn : String) (s t : Session)
    {document : Dict Value}
    → create alone o request now drawn s ≡ (ok document, t)
    → (body : JobCreate) × (request ≡ some body)
      × (((r : JobRecord) × (get_by_idempotency o.json s.world.rows body.idempotency_key ≡ some r)
            × (r.operation_digest ≡ body.operation_digest)
            × (document ≡ r.document)
            × (t.world ≡ s.world))
          ⊎ ((get_by_idempotency o.json s.world.rows body.idempotency_key ≡ none)
              × IsCreated o s.world t.world body now drawn document))
unfolding create
create-IsCreated o request now drawn s t {document} h =
    let (body, s1, v, h1) = bind-eq-ok (validate_body alone request) _ h in
    let (v1, v2) = validate_body-eq-ok request v in
    let (existing, s2, g, h2) =
      bind-eq-ok (store_get_by_idempotency alone o body.idempotency_key) _ h1 in
    let (g1, g2) = store_get_by_idempotency-eq-ok o body.idempotency_key s1 g in
    let there : s2.world ≡ s.world = g2 ∙ ap (λ (x : Session). x.world) (sym v2) in
    let asked : get_by_idempotency o.json s.world.rows body.idempotency_key ≡ existing =
      ap (λ (x : Session). get_by_idempotency o.json x.world.rows body.idempotency_key) v2
      ∙ sym g1 in
    (body, v1, by_key body s2 existing there asked h2)
  where
    by_key :
        (body : JobCreate) (u : Session) (existing : Option JobRecord)
        → u.world ≡ s.world
        → get_by_idempotency o.json s.world.rows body.idempotency_key ≡ existing
        → create_found alone o body now drawn existing u ≡ (ok document, t)
        → ((r : JobRecord) × (get_by_idempotency o.json s.world.rows body.idempotency_key ≡ some r)
            × (r.operation_digest ≡ body.operation_digest)
            × (document ≡ r.document)
            × (t.world ≡ s.world))
          ⊎ ((get_by_idempotency o.json s.world.rows body.idempotency_key ≡ none)
              × IsCreated o s.world t.world body now drawn document)
    by_key body u (some r) there asked k =
        let (same, k1) = require_then-eq-ok (r.operation_digest == body.operation_digest) _ _ k in
        let (e1, e2) = return-eq-ok r.document k1 in
        inl (
          r,
          asked,
          (==_iff r.operation_digest body.operation_digest).0 same,
          sym e1,
          ap (λ (x : Session). x.world) (sym e2) ∙ there,
        )
    by_key body u none there asked k = inr (
      asked,
      subst (λ w. IsCreated o w t.world body now drawn document) there
          (create_new-IsCreated o body now drawn u k),
    )
