-- ===== src/JobService/Retrieve.antt =====
-- `get_result`, `get_results` and `retrieve` of JobService.
use pdx_artifact_engine.Prelude.{
  ℕ, String, List, [], ◌∷◌, Bool, true, false, not, ◌&&◌, Option, none, some, Result, ok, raise,
  Dict, lookup, Value, null, number, bool, string, as_text, as_dict, and_then, if◌then◌else◌, ◌==◌,
  string_eq, nat_eq, option_eq, length, all, is_some,
}
use pdx_artifact_engine.Actions.{◌>>=◌, ◌>>◌, return, throw, require}
use pdx_artifact_engine.Staging.{Bytes}
use pdx_artifact_engine.Jobs.Results.{
  ResultItem, ItemError, validate_result_items, normalize_result_items,
}
use pdx_artifact_engine.JobService.World.{
  World, http, attribute_error, key_error, Outside, Task, store_get,
}
use pdx_artifact_engine.JobService.Requests.{
  Body, ArtifactRetrieve, validate_request, found_or_404, is_retrievable,
}

-- `d.get(key)`, where what is missing is None
abbrev pub get_or_null : String → Dict Value → Value
get_or_null key d = elim (lookup key d) [ none ↦ null | some v ↦ v ]

-- `==` where one side is null, a Boolean, a number or text, as the keys of a requested artifact are.
-- It is stricter than Python: `True == 1` and `3.0 == 3` are not equal here.
unfoldable pub scalar_beq : Value → Value → Bool
scalar_beq null null = true
scalar_beq (number a) (number b) = a == b
scalar_beq (string a) (string b) = a == b
scalar_beq (bool true) (bool true) = true
scalar_beq (bool false) (bool false) = true
scalar_beq _ _ = false

abbrev pub same_key : Dict Value → Dict Value → String → Bool
same_key left right key = scalar_beq (get_or_null key left) (get_or_null key right)

-- `_artifact_identity_equal`
unfoldable pub artifact_identity_equal : Dict Value → Dict Value → Bool
artifact_identity_equal left right =
    all (same_key left right)
      ("schema_version" ∷ "artifact_id" ∷ "uri" ∷ "sha256" ∷ "size_bytes" ∷ "media_type" ∷ [])

-- What `_verify_retrieved_bytes` returns.
pub record VerifiedBytes : Type 0 where
  pub media_type : Value
  pub size_bytes : ℕ
  pub sha256 : String
  pub content_b64 : String

-- the tests of `_verify_retrieved_bytes` on the decoded bytes
unfoldable pub verify_decoded : Outside → Dict Value → Dict Value → Bytes → Option VerifiedBytes
verify_decoded o kernel_body expected raw =
    let digest = o.formats.sha256 raw in
    let size = get_or_null "size_bytes" kernel_body in
    let sha256 = get_or_null "sha256" kernel_body in
    let media_type = get_or_null "media_type" kernel_body in
    if not
      (scalar_beq size (get_or_null "size_bytes" expected) && scalar_beq size (number (length raw)))
    then none
    else if not
        (scalar_beq sha256 (get_or_null "sha256" expected) && scalar_beq (string digest) sha256)
    then none
    else if not (scalar_beq media_type (get_or_null "media_type" expected))
    then none
    else some (record {
      media_type = media_type;
      size_bytes = length raw;
      sha256 = digest;
      content_b64 = o.b64encode raw;
    })

-- `_verify_retrieved_bytes`; `none` is its ValueError.
unfoldable pub verify_retrieved_bytes : Outside → Dict Value → Dict Value → Option VerifiedBytes
unfolding verify_decoded
verify_retrieved_bytes o kernel_body expected =
    and_then (and_then (lookup "content_b64" kernel_body) as_text) λ content.
      if content == ""
      then none
      else and_then (o.b64decode content) (verify_decoded o kernel_body expected)

-- What the Kernel answers to `retrieve_artifact`: an object, its status 413, or any other exception.
pub data KernelAnswer : Type 0 where
  answered : Dict Value → KernelAnswer
  too_large failed : KernelAnswer

-- What `retrieve` returns.
pub record ArtifactContent : Type 0 where
  pub job_id : String
  pub kind : String
  pub artifact : Dict Value
  pub bytes : VerifiedBytes

abbrev pub has_kind : String → ResultItem → Bool
has_kind kind item = item.kind == some kind

-- the first item of a kind
abbrev pub find_kind : String → List ResultItem → Option ResultItem
find_kind kind [] = none
find_kind kind (item ∷ items) = if has_kind kind item then some item else find_kind kind items

abbrev pub preferred_item : ResultItem → List ResultItem → ResultItem
preferred_item first items = elim (find_kind "materialized_source" items) [
  | none ↦ first
  | some item ↦ item
]

module _ (others : ℕ → World → World) (o : Outside) where
  abbrev pub items_or_500 : Result ItemError (List ResultItem) → Task others (List ResultItem)
  items_or_500 (ok items) = return items
  items_or_500 (raise e) = throw (http "RESULT_CONTRACT_INVALID" 500 false)

  unfoldable pub get_results : String → Task others (List ResultItem)
  unfolding store_get
  get_results job_id = do
    found ← store_get others o job_id
    r ← found_or_404 others found
    items_or_500 (validate_result_items (normalize_result_items r.result) job_id)

  abbrev pub one_result : List ResultItem → Task others ResultItem
  one_result [] = throw (http "RESULT_NOT_READY" 404 false)
  one_result (item ∷ items) = return (preferred_item item (item ∷ items))

  unfoldable pub get_result : String → Task others ResultItem
  unfolding store_get
  get_result job_id = do
    found ← store_get others o job_id
    r ← found_or_404 others found
    items ← items_or_500 (validate_result_items (normalize_result_items r.result) job_id)
    one_result items

  abbrev pub kind_or_404 : Option ResultItem → Task others (Dict Value)
  kind_or_404 none = throw (http "RESULT_KIND_MISSING" 404 false)
  kind_or_404 (some item) = elim item.artifact [
    | none ↦ throw attribute_error
    | some artifact ↦ return artifact
  ]

  -- the call of the Kernel, if there is one
  abbrev pub ask_kernel :
      Option (String → Dict Value → KernelAnswer) → ArtifactRetrieve → Task others (Dict Value)
  ask_kernel none body = throw (http "KERNEL_UNAVAILABLE" 503 false)
  ask_kernel (some kernel) body = elim (kernel body.request_id body.artifact) [
    | answered kernel_body ↦ return kernel_body
    | too_large ↦ throw (http "ARTIFACT_TOO_LARGE" 413 false)
    | failed ↦ throw (http "KERNEL_RETRIEVAL_FAILED" 502 true)
  ]

  -- `kernel_body.get("artifact", {})`, which must be an object
  abbrev pub artifact_or_error : Option Value → Task others (Dict Value)
  artifact_or_error none = return []
  artifact_or_error (some v) = elim (as_dict v) [ none ↦ throw attribute_error | some d ↦ return d ]

  abbrev pub verified_or_502 : Option VerifiedBytes → Task others VerifiedBytes
  verified_or_502 none = throw (http "KERNEL_RESPONSE_INVALID" 502 false)
  verified_or_502 (some v) = return v

  -- what `retrieve` does with a request that names the stored artifact
  unfoldable pub retrieve_bound :
      Option (String → Dict Value → KernelAnswer)
      → String
      → ArtifactRetrieve
      → Task others ArtifactContent
  unfolding artifact_identity_equal verify_retrieved_bytes
  retrieve_bound kernel job_id body = do
    kernel_body ← ask_kernel kernel body
    artifact ← artifact_or_error (lookup "artifact" kernel_body)
    require (artifact_identity_equal artifact body.artifact)
        (http "KERNEL_RESPONSE_INVALID" 502 false)
    bytes ← verified_or_502 (verify_retrieved_bytes o kernel_body body.artifact)
    require (is_some (lookup "artifact" kernel_body)) key_error
    return (record { job_id = job_id; kind = body.kind; artifact = artifact; bytes = bytes })

  unfoldable pub retrieve :
      Option (String → Dict Value → KernelAnswer)
      → String
      → Body ArtifactRetrieve
      → Task others ArtifactContent
  unfolding validate_request store_get artifact_identity_equal retrieve_bound
  retrieve kernel job_id request = do
    body ← validate_request others (λ (b : ArtifactRetrieve). b.job_id) request job_id
    found ← store_get others o job_id
    r ← found_or_404 others found
    require (is_retrievable r.state) (http "RESULT_NOT_READY" 404 false)
    items ← items_or_500 (validate_result_items (normalize_result_items r.result) job_id)
    stored ← kind_or_404 (find_kind body.kind items)
    require (artifact_identity_equal stored body.artifact)
        (http "ARTIFACT_BINDING_MISMATCH" 409 false)
    retrieve_bound kernel job_id body
