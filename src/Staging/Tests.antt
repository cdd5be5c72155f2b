-- ===== src/Staging/Tests.antt =====
-- A payload of three bytes, staged for a minute.
use pdx_artifact_engine.Prelude.{[], ◌∷◌, none, some, ok, insert, lookup, remove, ◌≡◌, refl}
use pdx_artifact_engine.Staging.{
  Bytes, StagingHandle, StagingStore, Formats, meta_of, stage, read_bytes, get_handle,
}
use pdx_artifact_engine.Staging.Files.{read-stage}

abbrev formats : Formats
formats = record { sha256 = λ b. "digest"; rfc3339 = λ t. "later" }

abbrev empty_store : StagingStore
empty_store = record { ttl_seconds = 60; max_decoded_bytes = 1000; payloads = []; metas = [] }

abbrev pdf : Bytes
pdf = 37 ∷ 80 ∷ 68 ∷ []

abbrev staged : StagingStore
staged = record empty_store {
  payloads = ("stg_1", pdf) ∷ [];
  metas = ("stg_1", meta_of formats pdf "application/pdf" "stg_1" 70) ∷ [];
}

abbrev handle_1 : StagingHandle
handle_1 = (meta_of formats pdf "application/pdf" "stg_1" 70).wire

stage_one : stage formats empty_store pdf "application/pdf" none 10 "1" ≡ ok (handle_1, staged)
unfolding stage insert
stage_one = refl

read-stage_example :
    (read_bytes staged "stg_1" 70 ≡ (some pdf, staged))
    × (get_handle staged "stg_1" 70 ≡ (some handle_1, staged))
read-stage_example = read-stage formats empty_store pdf "application/pdf" none 10 70 "1" stage_one

expired : read_bytes staged "stg_1" 71 ≡ (none, empty_store)
unfolding read_bytes lookup remove
expired = refl
