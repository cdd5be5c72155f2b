-- ===== src/JobService/Stored.antt =====
-- Whose bytes `retrieve` returns.
use pdx_artifact_engine.Prelude.{
  String, List, true, some, ok, Dict, Value, number, string, nat_eq, string_eq, ◌≡◌, length,
}
use pdx_artifact_engine.Staging.{Bytes}
use pdx_artifact_engine.Jobs.Results.{ResultItem, validate_result_items, normalize_result_items}
use pdx_artifact_engine.Jobs.Store.{JobRecord, get}
use pdx_artifact_engine.JobService.World.{World, Outside}
use pdx_artifact_engine.JobService.Requests.{is_retrievable}
use pdx_artifact_engine.JobService.Retrieve.{get_or_null, ArtifactContent, find_kind}

-- Content that is the artifact of a kind in the result of a job, with the decoded bytes.
pub record IsStored (o : Outside) (w : World) (job_id : String) (content : ArtifactContent)
    (raw : Bytes) : Type 0 where
  pub r : JobRecord
  pub items : List ResultItem
  pub item : ResultItem
  pub stored : Dict Value
  pub found : get o.json w.rows job_id ≡ some r
  pub retrievable : is_retrievable r.state ≡ true
  pub valid : validate_result_items (normalize_result_items r.result) job_id ≡ ok items
  pub of_kind : find_kind content.kind items ≡ some item
  pub artifact : item.artifact ≡ some stored
  pub same_artifact : get_or_null "artifact_id" content.artifact ≡ get_or_null "artifact_id" stored
  pub same_uri : get_or_null "uri" content.artifact ≡ get_or_null "uri" stored
  pub digest : get_or_null "sha256" stored ≡ string (o.formats.sha256 raw)
  pub size : get_or_null "size_bytes" stored ≡ number (length raw)
  pub said_digest : content.bytes.sha256 ≡ o.formats.sha256 raw
  pub encoded : content.bytes.content_b64 ≡ o.b64encode raw
