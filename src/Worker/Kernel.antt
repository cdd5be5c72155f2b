-- ===== src/Worker/Kernel.antt =====
-- The calls of the Kernel by a worker, inside its `try` blocks.
use Prim.Native.String.{String}
use text.Mathlib.Text.{starts_with}
use pdx_artifact_engine.Prelude.{
  ℕ, ◌+◌, Bool, Option, none, some, Result, ok, raise, Dict, lookup, insert, Value, string, object,
  fields_of, as_dict, lookup_dict, lookup_text, if◌then◌else◌, ◌==◌, string_eq, option_eq,
}
use pdx_artifact_engine.Actions.{Action, ◌>>=◌, ◌>>◌, return, throw, require}
use pdx_artifact_engine.Staging.{Bytes}
use pdx_artifact_engine.Jobs.Store.{JobRecord}
use pdx_artifact_engine.JobService.World.{World, Session, ServiceError, Outside}
use pdx_artifact_engine.JobService.Finalize.{str_value}
use pdx_artifact_engine.Worker.Lease.{text_or}
use pdx_artifact_engine.Worker.OutputName.{safe_output_name}

-- The Kernel's answers, each at the time of the call; `none` is an exception.
pub record KernelClient : Type 0 where
  pub materialize_intake : ℕ → (document_b64 filename media_type sha256 : String) → Option Value
  pub extract_content_blocks :
      ℕ → (document_artifact : Dict Value) (filename : String) → Option Value
  pub store_derived : ℕ → (output_name content_b64 media_type sha256 : String) → Option Value
  pub render_artifact : ℕ → Dict Value → Option Value
  pub compare_normalized_profiles : ℕ → Dict Value → Option Value
  pub verify_evidence_bundle : ℕ → Dict Value → Option Value

-- Any exception inside a `try` block.
pub data Fault : Type 0 where
  fault : Fault

abbrev pub Attempt : Type 0 → Type 0
Attempt A = Action Session Fault A

abbrev pub caught :
    {A : Type 0} → Result Fault A × Session → Result ServiceError (Option A) × Session
caught (ok a, s) = (ok (some a), s)
caught (raise e, s) = (ok none, s)

-- `try: .. except Exception: ..`
abbrev pub try_ : {A : Type 0} → Attempt A → Action Session ServiceError (Option A)
try_ m s = caught (m s)

abbrev pub or_fault : {A : Type 0} → Option A → Attempt A
or_fault none = throw fault
or_fault (some a) = return a

module _ (others : ℕ → World → World) where
  -- a call of the Kernel, which writes nothing here itself, and during which others may act
  unfoldable pub ask : {A : Type 0} → (ℕ → Option A) → Attempt A
  ask question s =
      or_fault (question s.tick) (record s { tick = s.tick + 1; world = others s.tick s.world })

  -- an answer that must be an object
  abbrev pub ask_object : (ℕ → Option Value) → Attempt (Dict Value)
  ask_object question = do v ← ask question; or_fault (as_dict v)

module _ (others : ℕ → World → World) (o : Outside) (k : KernelClient) where
  -- `str(d.get("uri", "")).startswith(prefix)`
  abbrev pub uri_starts : String → Dict Value → Bool
  uri_starts prefix d = elim (lookup "uri" d) [
    | none ↦ starts_with "" prefix
    | some v ↦ starts_with (str_value o v) prefix
  ]

  -- `_persist_kernel_json`, and the same calls in `_run_intake`
  unfoldable pub persist_json : Value → String → Attempt (Dict Value)
  unfolding ask
  persist_json response output_name = do
    derived ← ask_object others (λ t.
        k.store_derived t output_name (o.b64encode (o.dumps_bytes response)) "application/json"
          (o.formats.sha256 (o.dumps_bytes response)))
    require (uri_starts "artifact://derived/" derived) fault
    return derived

  -- the `try` block of `_run_intake`: the identity of the source and of what was extracted
  unfoldable pub intake_calls : JobRecord → Bytes → String → Attempt (Dict Value × Dict Value)
  unfolding ask persist_json
  intake_calls r payload digest = do
    identity ← ask_object others (λ t.
        k.materialize_intake t (o.b64encode payload) r.payload_filename r.payload_media_type digest)
    require (uri_starts "artifact://" identity) fault
    extract ← ask others (λ t. k.extract_content_blocks t identity r.payload_filename)
    derived ← persist_json extract "content_blocks.json"
    return (identity, derived)

  -- the render request with its delivery mode, which is `artifact` if it has an output
  abbrev pub with_artifact_delivery : Dict Value → Option (Dict Value) → Dict Value
  with_artifact_delivery request none = request
  with_artifact_delivery request (some output) =
      if lookup_text "delivery_mode" output == some "artifact"
      then request
      else insert "output" (object (fields_of (insert "delivery_mode" (string "artifact") output)))
          request

  -- `str(output["output_name"])` where there is one
  abbrev pub render_name : Option (Dict Value) → String
  render_name none = "render.bin"
  render_name (some output) = text_or o (lookup "output_name" output) "render.bin"

  -- the answer of `store_derived` for an answer that holds the content itself
  unfoldable pub derived_render : Dict Value → Option (Dict Value) → Attempt Value
  unfolding ask safe_output_name
  derived_render response output = do
    content ← or_fault (lookup_text "content_b64" response)
    raw ← or_fault (o.b64decode content)
    ask others (λ t.
        k.store_derived t (safe_output_name (render_name output)) (o.b64encode raw)
          (text_or o (lookup "media_type" response) "application/octet-stream")
          (o.formats.sha256 raw))

  -- the answer to a render request, by the artifact in it
  abbrev pub rendered : Dict Value → Option (Dict Value) → Option (Dict Value) → Attempt Value
  rendered response output none = derived_render response output
  rendered response output (some artifact) =
      if uri_starts "artifact://" artifact
      then return (object (fields_of artifact))
      else derived_render response output

  -- the `try` block of `_run_render`
  unfoldable pub render_calls : Bytes → Attempt Value
  unfolding ask derived_render
  render_calls payload = do
    body ← or_fault (o.loads_bytes payload)
    request ← or_fault (as_dict body)
    response ←
        ask_object others
          (λ t. k.render_artifact t (with_artifact_delivery request (lookup_dict "output" request)))
    rendered response (lookup_dict "output" request) (lookup_dict "artifact" response)

  -- the `try` block of `_run_kernel_json_operation`
  unfoldable pub json_calls :
      (ℕ → Dict Value → Option Value) → Bytes → String → Attempt (Dict Value)
  unfolding ask persist_json
  json_calls kernel_call payload output_name = do
    body ← or_fault (o.loads_bytes payload)
    request ← or_fault (as_dict body)
    response ← ask_object others (λ t. kernel_call t request)
    persist_json (object (fields_of response)) output_name
