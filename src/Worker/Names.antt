-- ===== src/Worker/Names.antt =====
-- The names under which a worker stores what it derives.
use mathlib.Core.Path.{fun_ext}
use Prim.Native.String.{String}
use pdx_artifact_engine.Prelude.{
  ℕ, Bool, true, not, ◌&&◌, Option, none, some, Dict, Value, object, fields_of, as_dict,
  lookup_dict, if◌then◌else◌, leb, ◌==◌, ==_iff, string_eq, ◌≡◌, refl, ap, arith, inl, inr,
  Bool-cases,
}
use pdx_artifact_engine.Actions.{◌>>=◌, ◌>>◌, return, require}
use pdx_artifact_engine.Staging.{Bytes}
use pdx_artifact_engine.Jobs.Store.{JobRecord}
use pdx_artifact_engine.JobService.World.{World, Outside}
use pdx_artifact_engine.Worker.OutputName.{
  has_slash, chars, safe_output_name, safe_output_name-IsFileName,
}
use pdx_artifact_engine.Worker.Kernel.{
  KernelClient, fault, or_fault, ask, ask_object, uri_starts, persist_json, intake_calls,
  with_artifact_delivery, render_name, derived_render, rendered, render_calls, json_calls,
}

-- the test that a text names a file in a directory
abbrev pub is_file_name : String → Bool
is_file_name name =
    not (has_slash name)
    && (not (name == "") && (not (name == ".") && (not (name == "..") && leb (chars name) 127)))

-- A Kernel that stores nothing under a text that is no file name.
abbrev pub guarded : KernelClient → KernelClient
guarded k = record k {
  store_derived = λ t name content_b64 media_type sha256.
      if is_file_name name then k.store_derived t name content_b64 media_type sha256 else none;
}

is_file_name-safe : (name : String) → is_file_name (safe_output_name name) ≡ true
is_file_name-safe name =
    let safe = safe_output_name-IsFileName name in
    ground (
      arith,
      safe.no_slash,
      safe.not_empty,
      safe.not_here,
      safe.not_parent,
      safe.short,
      ==_iff (safe_output_name name) "",
      ==_iff (safe_output_name name) ".",
      ==_iff (safe_output_name name) "..",
    )

module _ (others : ℕ → World → World) (o : Outside) (k : KernelClient) where
  derived_render-guarded :
      (response : Dict Value) (output : Option (Dict Value))
      → derived_render others o (guarded k) response output
        ≡ derived_render others o k response output
  unfolding derived_render
  derived_render-guarded response output =
      rw (is_file_name-safe (render_name others o k output)) refl

  rendered-guarded :
      (response : Dict Value) (output artifact : Option (Dict Value))
      → rendered others o (guarded k) response output artifact
        ≡ rendered others o k response output artifact
  rendered-guarded response output none = derived_render-guarded response output
  rendered-guarded response output (some artifact) =
      elim (Bool-cases (uri_starts others o k "artifact://" artifact)) [
        | inl opaque ↦ rw opaque refl
        | inr other ↦ rw other (derived_render-guarded response output)
      ]

  pub render_calls-guarded :
      (payload : Bytes)
      → render_calls others o (guarded k) payload ≡ render_calls others o k payload
  unfolding render_calls
  render_calls-guarded payload =
      ap (λ f. or_fault (o.loads_bytes payload) >>= λ body. or_fault (as_dict body) >>= f)
        (fun_ext λ request.
          ap
            (λ g.
              ask_object others (λ t.
                k.render_artifact t
                  (with_artifact_delivery others o k request (lookup_dict "output" request)))
              >>= g)
            (fun_ext λ response.
              rendered-guarded response (lookup_dict "output" request)
                (lookup_dict "artifact" response)))

  persist_json-guarded :
      (v : Value) (name : String)
      → is_file_name name ≡ true
      → persist_json others o (guarded k) v name ≡ persist_json others o k v name
  unfolding persist_json
  persist_json-guarded v name ok_name = rw ok_name refl

  pub json_calls-guarded :
      (call : ℕ → Dict Value → Option Value) (payload : Bytes) (name : String)
      → is_file_name name ≡ true
      → json_calls others o (guarded k) call payload name ≡ json_calls others o k call payload name
  unfolding json_calls
  json_calls-guarded call payload name ok_name =
      ap (λ f. or_fault (o.loads_bytes payload) >>= λ body. or_fault (as_dict body) >>= f)
        (fun_ext λ request.
          ap (λ g. ask_object others (λ t. call t request) >>= g)
            (fun_ext λ response. persist_json-guarded (object (fields_of response)) name ok_name))

  pub intake_calls-guarded :
      (r : JobRecord) (payload : Bytes) (digest : String)
      → intake_calls others o (guarded k) r payload digest
        ≡ intake_calls others o k r payload digest
  unfolding intake_calls
  intake_calls-guarded r payload digest =
      ap
        (λ f.
          ask_object others (λ t.
            k.materialize_intake t (o.b64encode payload) r.payload_filename r.payload_media_type
              digest)
          >>= f)
        (fun_ext λ identity.
          ap (λ m. require (uri_starts others o k "artifact://" identity) fault >> m)
            (ap
              (λ g. ask others (λ t. k.extract_content_blocks t identity r.payload_filename) >>= g)
              (fun_ext λ extract.
                ap (λ m. m >>= λ derived. return (identity, derived))
                  (persist_json-guarded extract "content_blocks.json" refl))))
