-- ===== src/JobService/Cancelled.antt =====
-- What `cancel` does to a job, whatever happens to it between its read and its write.
use pdx_artifact_engine.Prelude.{
  ℕ, ◌+◌, String, List, Bool, true, false, not, Option, none, some, Result, ok, raise, Dict, Value,
  ◌==◌, ==_iff, string_eq, nat_eq, if◌then◌else◌, ◌≡◌, refl, sym, ap, ◌∙◌, subst, arith, inl, inr,
  Option-cases,
}
use pdx_artifact_engine.Actions.{◌>>◌, return, bind-eq-ok, require_then-eq-ok}
use pdx_artifact_engine.Staging.{StagingStore, delete}
use pdx_artifact_engine.Jobs.Rows.{JobRow, may_update}
use pdx_artifact_engine.Jobs.Store.{
  JobRecord, StoreError, Json, get, row_to_record, update, overwrite,
}
use pdx_artifact_engine.Jobs.Table.{find_row, find_row-changed, find_row_id}
use pdx_artifact_engine.Jobs.Effects.{updated_rows}
use pdx_artifact_engine.JobService.World.{
  World, Session, Outside, store_get, store_update, staging_delete, with_rows,
}
use pdx_artifact_engine.JobService.Requests.{
  Body, JobRequest, validate_request, found_or_404, is_terminal,
}
use pdx_artifact_engine.JobService.Finalize.{
  handle_of, final_document, finalized, finish_finalize, finalize, cancel,
}
use pdx_artifact_engine.JobService.Calls.{found_or_404-eq-ok, validate_request-eq-ok}

-- The others act once, before the call with a given number.
abbrev pub once : ℕ → (World → World) → ℕ → World → World
once n f m w = if m == n then f w else w

-- the staged files after the deletion of those that a job names
abbrev pub without : Option String → StagingStore → StagingStore
without none st = st
without (some handle) st = delete st handle

-- A job that was read as `r` and cancelled, and the world at the time of the write.
pub record IsCancelled (o : Outside) (before writing after : World) (job_id : String)
    (document : Dict Value) : Type 0 where
  pub r : JobRecord
  pub found : get o.json before.rows job_id ≡ some r
  pub was_open : is_terminal r.state ≡ false
  pub document_is : document ≡ final_document r.document "cancelled" none
  pub overwritten :
      (row : JobRow)
      → find_row job_id writing.rows ≡ some row
      → (result_json : Option String) × (find_row job_id after.rows
          ≡ some (overwrite o.json (finalized r "cancelled" none) result_json row))
  pub deleted : after.staging ≡ without (handle_of o r.document) writing.staging

got_id :
    (c : Json) (rows : List JobRow) (job_id : String) {r : JobRecord}
    → get c rows job_id ≡ some r
    → r.job_id ≡ job_id
unfolding get row_to_record
got_id c rows job_id {r} h = elim (Option-cases (find_row job_id rows)) [
  | inl nothing ↦ absurd (ground arith)
  | inr (row, found) ↦ let id = find_row_id job_id rows row found in ground arith
]

with_rows-ok :
    (others : ℕ → World → World) (o : Outside) (w w' : World)
    (a : Result StoreError (Bool × List JobRow)) {done : Bool}
    → with_rows others o w a ≡ (ok done, w')
    → (a ≡ ok (done, w'.rows)) × (w'.staging ≡ w.staging)
with_rows-ok others o w w' (ok (b, rows)) h = (cc, cc)
with_rows-ok others o w w' (raise e) h = absurd (cc)

store_update-eq-ok :
    (others : ℕ → World → World) (o : Outside) (r : JobRecord) (expected : Option String)
    (s : Session) {t : Session} {done : Bool}
    → store_update others o r expected s ≡ (ok done, t)
    → (update o.json (others s.tick s.world).rows r expected ≡ ok (done, t.world.rows))
      × (t.world.staging ≡ (others s.tick s.world).staging)
      × (t.tick ≡ s.tick + 1)
unfolding store_update
store_update-eq-ok others o r expected s {t} {done} h =
    let (a, b) =
      with_rows-ok others o (others s.tick s.world) t.world
        (update o.json (others s.tick s.world).rows r expected) {done = done} (cc) in
    (a, b, cc)

store_get-at :
    (others : ℕ → World → World) (o : Outside) (id : String) (s : Session) {t : Session}
    {found : Option JobRecord}
    → store_get others o id s ≡ (ok found, t)
    → (found ≡ get o.json (others s.tick s.world).rows id)
      × (t.world ≡ others s.tick s.world)
      × (t.tick ≡ s.tick + 1)
unfolding store_get
store_get-at others o id s h = (cc, cc, cc)

finish_finalize-eq-ok :
    (others : ℕ → World → World) (o : Outside) (handle : Option String) (updated : Dict Value)
    (done : Bool) (u t : Session) {document : Dict Value}
    → others u.tick u.world ≡ u.world
    → finish_finalize others o handle updated done u ≡ (ok (some document), t)
    → (updated ≡ document)
      × (t.world.rows ≡ u.world.rows)
      × (t.world.staging ≡ without handle u.world.staging)
unfolding ◌>>◌ return staging_delete
finish_finalize-eq-ok others o handle updated false u t calm h = absurd (cc)
finish_finalize-eq-ok others o none updated true u t calm h = (cc, cc, cc)
finish_finalize-eq-ok others o (some handle) updated true u t calm h = (
  cc,
  ap (λ (x : Session). x.world.rows) (sym (ap (λ x. x.1) h)) ∙ ap (λ (w : World). w.rows) calm,
  ap (λ (x : Session). x.world.staging) (sym (ap (λ x. x.1) h))
      ∙ ap (λ (w : World). delete w.staging handle) calm,
)

-- the write of `cancel`, with no test of a lease
overwritten_row :
    (c : Json) (rows rows' : List JobRow) (r : JobRecord) {done : Bool} (row : JobRow)
    → update c rows r none ≡ ok (done, rows')
    → find_row r.job_id rows ≡ some row
    → (result_json : Option String) × (find_row r.job_id rows'
        ≡ some (overwrite c r result_json row))
overwritten_row c rows rows' r row h found =
    let (json, is_done, same) = updated_rows c rows r none h in
    let hit : may_update r.job_id none row ≡ true =
      (==_iff row.job_id r.job_id).1 (find_row_id r.job_id rows row found) in
    (
      json,
      ap (find_row r.job_id) same
          ∙ find_row-changed (may_update r.job_id none) (overwrite c r json) r.job_id rows row
              (λ x. refl) hit found,
    )

once_off : (n : ℕ) (f : World → World) (m : ℕ) (w : World) → (m == n) ≡ false → once n f m w ≡ w
once_off n f m w h = rw h refl

once_on : (n : ℕ) (f : World → World) (m : ℕ) (w : World) → m ≡ n → once n f m w ≡ f w
once_on n f m w h = ground (arith, ==_iff m n)

-- The calls of `cancel`, each with what it answered.
IsCancelled-of :
    (o : Outside) (between : World → World) (job_id : String) (s s3 s4 t : Session) (r : JobRecord)
    (done : Bool) (document : Dict Value)
    → get o.json s.world.rows job_id ≡ some r
    → not (is_terminal r.state) ≡ true
    → s3.world ≡ s.world
    → s3.tick ≡ s.tick + 1
    → update o.json
        (once (s.tick + 1) between s3.tick s3.world).rows
        (finalized r "cancelled" none)
        none
      ≡ ok (done, s4.world.rows)
    → s4.world.staging ≡ (once (s.tick + 1) between s3.tick s3.world).staging
    → s4.tick ≡ s3.tick + 1
    → finish_finalize
        (once (s.tick + 1) between)
        o
        (handle_of o r.document)
        (final_document r.document "cancelled" none)
        done
        s4
      ≡ (ok (some document), t)
    → IsCancelled o s.world (between s.world) t.world job_id document
IsCancelled-of o between job_id s s3 s4 t r done document found open_ same next updated files
      after_it finished =
    let acted : once (s.tick + 1) between s3.tick s3.world ≡ between s.world =
      once_on (s.tick + 1) between s3.tick s3.world next ∙ ap between same in
    let calm =
      once_off (s.tick + 1) between s4.tick s4.world
        (ground (arith, ==_iff s4.tick (s.tick + 1))) in
    let (document_is, rows_are, staging_is) =
      finish_finalize-eq-ok (once (s.tick + 1) between) o (handle_of o r.document)
        (final_document r.document "cancelled" none) done s4 t calm finished in
    let id : r.job_id ≡ job_id = got_id o.json s.world.rows job_id found in
    let written : update o.json (between s.world).rows (finalized r "cancelled" none) none
        ≡ ok (done, s4.world.rows) =
      ap (λ (w : World). update o.json w.rows (finalized r "cancelled" none) none) (sym acted)
      ∙ updated in
    record {
      r = r;
      found = found;
      was_open = ground arith;
      document_is = sym document_is;
      overwritten = λ row there.
          subst
            (λ rows.
              (json : Option String) × (find_row job_id rows
                ≡ some (overwrite o.json (finalized r "cancelled" none) json row)))
            (sym rows_are)
            (subst
              (λ id.
                (json : Option String) × (find_row id s4.world.rows
                  ≡ some (overwrite o.json (finalized r "cancelled" none) json row)))
              id
              (overwritten_row o.json (between s.world).rows s4.world.rows
                (finalized r "cancelled" none) row written
                (ap (λ i. find_row i (between s.world).rows) id ∙ there)));
      deleted =
          staging_is
          ∙ ap (without (handle_of o r.document)) (files ∙ ap (λ (w : World). w.staging) acted);
    }

-- A cancellation that answers with a document, where others may do anything to the world between its
-- read and its write: the job that was read was not terminal, the answer is its document in the state
-- cancelled, without staging and error, and its staged files are gone. The row is overwritten, whatever
-- state the others have brought it to, and afterwards nobody leases it.
pub cancel-IsCancelled :
    (o : Outside) (between : World → World) (job_id : String) (request : Body JobRequest)
    (s t : Session) {document : Dict Value}
    → cancel (once (s.tick + 1) between) o job_id request s ≡ (ok (some document), t)
    → IsCancelled o s.world (between s.world) t.world job_id document
unfolding cancel finalize
cancel-IsCancelled o between job_id request s t {document} h =
    let others = once (s.tick + 1) between in
    let (body, s1, v, h1) =
      bind-eq-ok (validate_request others (λ (b : JobRequest). b.job_id) request job_id) _ h in
    let (v1, v2, same_s) =
      validate_request-eq-ok others (λ (b : JobRequest). b.job_id) request job_id v in
    let (found, s2, g, h2) = bind-eq-ok (store_get others o job_id) _ h1 in
    let (r, s3, f, h3) = bind-eq-ok (found_or_404 others found) _ h2 in
    let (f1, same_s2) = found_or_404-eq-ok others found f in
    let (g1, g2, g3) = store_get-at others o job_id s (
      subst (λ x. store_get others o job_id x ≡ (ok found, s3)) (sym same_s)
        (g ∙ ap (λ x. (ok found, x)) same_s2)) in
    let (open_, h4) = require_then-eq-ok (not (is_terminal r.state)) _ _ h3 in
    let (done, s4, u, h5) =
      bind-eq-ok (store_update others o (finalized r "cancelled" none) none) _ h4 in
    let (u1, u2, u3) = store_update-eq-ok others o (finalized r "cancelled" none) none s3 u in
    let first : others s.tick s.world ≡ s.world =
      once_off (s.tick + 1) between s.tick s.world (ground (arith, ==_iff s.tick (s.tick + 1))) in
    IsCancelled-of o between job_id s s3 s4 t r done document
      (ap (λ (w : World). get o.json w.rows job_id) (sym first) ∙ sym g1 ∙ f1) open_ (g2 ∙ first) g3
      u1 u2 u3 h5
