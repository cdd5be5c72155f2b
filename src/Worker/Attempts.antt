-- ===== src/Worker/Attempts.antt =====
-- The calls of the Kernel keep what the passing of time keeps.
use Prim.Native.String.{String}
use pdx_artifact_engine.Prelude.{
  ℕ, ◌+◌, Option, none, some, Result, ok, raise, Dict, Value, object, fields_of, as_dict,
  lookup_dict, lookup_text, Bool-cases, inl, inr,
}
use pdx_artifact_engine.Actions.{
  Keeps, bind-Keeps, then-Keeps, return-Keeps, throw-Keeps, require-Keeps,
}
use pdx_artifact_engine.Staging.{Bytes}
use pdx_artifact_engine.Jobs.Store.{JobRecord}
use pdx_artifact_engine.JobService.World.{World, Session, Outside}
use pdx_artifact_engine.Worker.Kernel.{
  KernelClient, Fault, fault, Attempt, caught, try_, or_fault, ask, ask_object, uri_starts,
  persist_json, intake_calls, derived_render, rendered, render_calls, json_calls,
}

module _ (others : ℕ → World → World) (o : Outside) (k : KernelClient) (P : Session → Type 0)
    (asks : (s : Session)
      → P s
      → P (record s { tick = s.tick + 1; world = others s.tick s.world })) where
  caught_keeps : {A : Type 0} (r : Result Fault A × Session) → P r.1 → P (caught r).1
  caught_keeps (ok a, t) q = q
  caught_keeps (raise e, t) q = q

  pub try_-Keeps : {A : Type 0} {m : Attempt A} → Keeps P m → Keeps P (try_ m)
  try_-Keeps {m = m} keep = record { keep = λ s p. caught_keeps (m s) (keep.keep s p) }

  or_fault-Keeps : {A : Type 0} (a : Option A) → Keeps P (or_fault a)
  or_fault-Keeps none = throw-Keeps P fault
  or_fault-Keeps (some a) = return-Keeps P a

  ask-Keeps : {A : Type 0} (question : ℕ → Option A) → Keeps P (ask others question)
  unfolding ask
  ask-Keeps question = record {
    keep = λ s p.
        (or_fault-Keeps (question s.tick)).keep
          (record s { tick = s.tick + 1; world = others s.tick s.world }) (asks s p);
  }

  ask_object-Keeps : (question : ℕ → Option Value) → Keeps P (ask_object others question)
  ask_object-Keeps question = bind-Keeps P (ask-Keeps question) (λ v. or_fault-Keeps (as_dict v))

  persist_json-Keeps : (v : Value) (name : String) → Keeps P (persist_json others o k v name)
  unfolding persist_json
  persist_json-Keeps v name = bind-Keeps P (ask_object-Keeps _) (λ d.
      then-Keeps P (require-Keeps P (uri_starts others o k "artifact://derived/" d) fault)
        (return-Keeps P d))

  pub intake_calls-Keeps :
      (r : JobRecord) (payload : Bytes) (digest : String)
      → Keeps P (intake_calls others o k r payload digest)
  unfolding intake_calls
  intake_calls-Keeps r payload digest = bind-Keeps P (ask_object-Keeps _) (λ identity.
      then-Keeps P (require-Keeps P (uri_starts others o k "artifact://" identity) fault) (
        bind-Keeps P (ask-Keeps _) (λ extract.
          bind-Keeps P (persist_json-Keeps extract "content_blocks.json")
            (λ derived. return-Keeps P (identity, derived)))))

  derived_render-Keeps :
      (response : Dict Value) (output : Option (Dict Value))
      → Keeps P (derived_render others o k response output)
  unfolding derived_render
  derived_render-Keeps response output =
      bind-Keeps P (or_fault-Keeps (lookup_text "content_b64" response))
        (λ content. bind-Keeps P (or_fault-Keeps (o.b64decode content)) (λ raw. ask-Keeps _))

  rendered-Keeps :
      (response : Dict Value) (output artifact : Option (Dict Value))
      → Keeps P (rendered others o k response output artifact)
  rendered-Keeps response output none = derived_render-Keeps response output
  rendered-Keeps response output (some artifact) =
      elim (Bool-cases (uri_starts others o k "artifact://" artifact)) [
        | inl opaque ↦ rw opaque (return-Keeps P (object (fields_of artifact)))
        | inr other ↦ rw other (derived_render-Keeps response output)
      ]

  pub render_calls-Keeps : (payload : Bytes) → Keeps P (render_calls others o k payload)
  unfolding render_calls
  render_calls-Keeps payload = bind-Keeps P (or_fault-Keeps (o.loads_bytes payload)) (λ body.
      bind-Keeps P (or_fault-Keeps (as_dict body)) (λ request.
        bind-Keeps P (ask_object-Keeps _) (λ response.
          rendered-Keeps response (lookup_dict "output" request)
            (lookup_dict "artifact" response))))

  pub json_calls-Keeps :
      (call : ℕ → Dict Value → Option Value) (payload : Bytes) (name : String)
      → Keeps P (json_calls others o k call payload name)
  unfolding json_calls
  json_calls-Keeps call payload name =
      bind-Keeps P (or_fault-Keeps (o.loads_bytes payload)) (λ body.
        bind-Keeps P (or_fault-Keeps (as_dict body)) (λ request.
          bind-Keeps P (ask_object-Keeps _)
            (λ response. persist_json-Keeps (object (fields_of response)) name)))
