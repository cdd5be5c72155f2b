-- ===== src/JobService/Verified.antt =====
-- What the bytes that the Kernel hands out are tested against.
use pdx_artifact_engine.Prelude.{
  ℕ, String, List, Bool, true, false, Option, none, some, Result, ok, raise, Dict, lookup, Value,
  number, string, not, nat_eq, string_eq, if◌then◌else◌, ◌≡◌, subst, refl, sym, ap, ◌∙◌, arith,
  and_then, as_text, length, is_some, inl, inr, Option-cases, &&-eq-true,
}
use pdx_artifact_engine.Actions.{return, throw, bind-eq-ok, require_then-eq-ok, return-eq-ok}
use pdx_artifact_engine.Staging.{Bytes}
use pdx_artifact_engine.Jobs.Results.{ResultItem, ItemError}
use pdx_artifact_engine.JobService.World.{World, Session, Outside}
use pdx_artifact_engine.JobService.Requests.{ArtifactRetrieve}
use pdx_artifact_engine.JobService.Retrieve.{
  get_or_null, artifact_identity_equal, VerifiedBytes, verify_decoded, verify_retrieved_bytes,
  KernelAnswer, ArtifactContent, items_or_500, kind_or_404, ask_kernel, artifact_or_error,
  verified_or_502, retrieve_bound,
}
use pdx_artifact_engine.JobService.Calls.{scalar_beq-true}

-- What equal identities share.
pub record SameIdentity (left right : Dict Value) : Type 0 where
  pub artifact_id : get_or_null "artifact_id" left ≡ get_or_null "artifact_id" right
  pub uri : get_or_null "uri" left ≡ get_or_null "uri" right
  pub sha256 : get_or_null "sha256" left ≡ get_or_null "sha256" right
  pub size_bytes : get_or_null "size_bytes" left ≡ get_or_null "size_bytes" right
  pub media_type : get_or_null "media_type" left ≡ get_or_null "media_type" right

pub SameIdentity-of :
    (left right : Dict Value) → artifact_identity_equal left right ≡ true → SameIdentity left right
unfolding artifact_identity_equal
SameIdentity-of left right h = record {
  artifact_id = scalar_beq-true _ _ (ground arith);
  uri = scalar_beq-true _ _ (ground arith);
  sha256 = scalar_beq-true _ _ (ground arith);
  size_bytes = scalar_beq-true _ _ (ground arith);
  media_type = scalar_beq-true _ _ (ground arith);
}

-- Verified bytes, against the identity that was requested.
pub record IsVerified (o : Outside) (expected : Dict Value) (raw : Bytes) (v : VerifiedBytes)
    : Type 0 where
  pub digest : get_or_null "sha256" expected ≡ string (o.formats.sha256 raw)
  pub size : get_or_null "size_bytes" expected ≡ number (length raw)
  pub media_type : get_or_null "media_type" expected ≡ v.media_type
  pub said_digest : v.sha256 ≡ o.formats.sha256 raw
  pub encoded : v.content_b64 ≡ o.b64encode raw

-- A test that did not refuse.
not_refused :
    {A : Type 0} (b : Bool) (rest : Option A) {a : A}
    → (if not b then none else rest) ≡ some a
    → (b ≡ true) × (rest ≡ some a)
not_refused true rest h = (refl, h)
not_refused false rest h = absurd (cc)

verify_decoded-IsVerified :
    (o : Outside) (kernel_body expected : Dict Value) (raw : Bytes) {v : VerifiedBytes}
    → verify_decoded o kernel_body expected raw ≡ some v
    → IsVerified o expected raw v
unfolding verify_decoded
verify_decoded-IsVerified o kernel_body expected raw {v} h =
    let (sizes, h1) = not_refused _ _ h in
    let (size, size_is) = &&-eq-true _ _ sizes in
    let (digests, h2) = not_refused _ _ h1 in
    let (digest, digest_is) = &&-eq-true _ _ digests in
    let (media_type, h3) = not_refused _ _ h2 in
    record {
      digest = sym (scalar_beq-true _ _ digest) ∙ sym (scalar_beq-true _ _ digest_is);
      size = sym (scalar_beq-true _ _ size) ∙ scalar_beq-true _ _ size_is;
      media_type = sym (scalar_beq-true _ _ media_type) ∙ cc h3;
      said_digest = cc h3;
      encoded = cc h3;
    }

-- the text of the content, and its decoding
verify_retrieved_bytes-IsVerified :
    (o : Outside) (kernel_body expected : Dict Value) {v : VerifiedBytes}
    → verify_retrieved_bytes o kernel_body expected ≡ some v
    → (raw : Bytes) × IsVerified o expected raw v
unfolding verify_retrieved_bytes
verify_retrieved_bytes-IsVerified o kernel_body expected {v} h =
    elim (Option-cases (and_then (lookup "content_b64" kernel_body) as_text)) [
      | inl nothing ↦ absurd (ground arith)
      | inr (content, found) ↦ elim (Option-cases (o.b64decode content)) [
        | inl nothing ↦ absurd (ground arith)
        | inr (raw, decoded) ↦
            (raw, verify_decoded-IsVerified o kernel_body expected raw (ground arith))
      ]
    ]

pub items_or_500-eq-ok :
    (others : ℕ → World → World) (o : Outside) (checked : Result ItemError (List ResultItem))
    {s t : Session} {items : List ResultItem}
    → items_or_500 others o checked s ≡ (ok items, t)
    → (checked ≡ ok items) × (s ≡ t)
unfolding return throw
items_or_500-eq-ok others o (ok items) h = (cc, cc)
items_or_500-eq-ok others o (raise e) h = absurd (cc)

pub kind_or_404-eq-ok :
    (others : ℕ → World → World) (o : Outside) (item : Option ResultItem) {s t : Session}
    {artifact : Dict Value}
    → kind_or_404 others o item s ≡ (ok artifact, t)
    → (i : ResultItem) × (item ≡ some i) × (i.artifact ≡ some artifact) × (s ≡ t)
unfolding return throw
kind_or_404-eq-ok others o none h = absurd (cc)
kind_or_404-eq-ok others o (some i) h = (i, refl, ground arith, ground arith)

ask_kernel-state :
    (others : ℕ → World → World) (o : Outside)
    (kernel : Option (String → Dict Value → KernelAnswer)) (body : ArtifactRetrieve) (s : Session)
    → (ask_kernel others o kernel body s).1 ≡ s
unfolding return throw
ask_kernel-state others o none body s = refl
ask_kernel-state others o (some kernel) body s = ground arith

artifact_or_error-state :
    (others : ℕ → World → World) (o : Outside) (v : Option Value) (s : Session)
    → (artifact_or_error others o v s).1 ≡ s
unfolding return throw
artifact_or_error-state others o none s = refl
artifact_or_error-state others o (some v) s = ground arith

verified_or_502-eq-ok :
    (others : ℕ → World → World) (o : Outside) (v : Option VerifiedBytes) {s t : Session}
    {bytes : VerifiedBytes}
    → verified_or_502 others o v s ≡ (ok bytes, t)
    → (v ≡ some bytes) × (s ≡ t)
unfolding return throw
verified_or_502-eq-ok others o none h = absurd (cc)
verified_or_502-eq-ok others o (some v) h = (cc, cc)

-- Content for a request, with the decoded bytes.
pub record IsRequested (o : Outside) (body : ArtifactRetrieve) (content : ArtifactContent)
    (raw : Bytes) : Type 0 where
  pub of_kind : content.kind ≡ body.kind
  pub same : SameIdentity content.artifact body.artifact
  pub verified : IsVerified o body.artifact raw content.bytes

pub retrieve_bound-IsRequested :
    (others : ℕ → World → World) (o : Outside)
    (kernel : Option (String → Dict Value → KernelAnswer)) (job_id : String)
    (body : ArtifactRetrieve) (s : Session) {t : Session} {content : ArtifactContent}
    → retrieve_bound others o kernel job_id body s ≡ (ok content, t)
    → ((raw : Bytes) × IsRequested o body content raw) × (t ≡ s)
unfolding retrieve_bound
retrieve_bound-IsRequested others o kernel job_id body s {t} {content} h =
    let (kernel_body, s6, a, h8) = bind-eq-ok (ask_kernel others o kernel body) _ h in
    let (artifact, s7, b, h9) =
      bind-eq-ok (artifact_or_error others o (lookup "artifact" kernel_body)) _ h8 in
    let (same, h10) = require_then-eq-ok (artifact_identity_equal artifact body.artifact) _ _ h9 in
    let (bytes, s8, c, h11) = bind-eq-ok _ _ h10 in
    let (c1, c2) =
      verified_or_502-eq-ok others o (verify_retrieved_bytes o kernel_body body.artifact) c in
    let (present, h12) = require_then-eq-ok (is_some (lookup "artifact" kernel_body)) _ _ h11 in
    let (e1, e2) =
      return-eq-ok
        (record { job_id = job_id; kind = body.kind; artifact = artifact; bytes = bytes }) h12 in
    let (raw, verified) = verify_retrieved_bytes-IsVerified o kernel_body body.artifact c1 in
    (
      (
        raw,
        subst (λ x. IsRequested o body x raw) e1
            (record {
              of_kind = refl;
              same = SameIdentity-of artifact body.artifact same;
              verified = verified;
            }),
      ),
      sym e2
          ∙ sym c2
          ∙ sym (ap (λ x. x.1) b)
          ∙ artifact_or_error-state others o (lookup "artifact" kernel_body) s6
          ∙ sym (ap (λ x. x.1) a)
          ∙ ask_kernel-state others o kernel body s,
    )
