-- ===== src/Core/Provenance/Tests.antt =====
-- A bundle of one entity and one activity.
use pdx_artifact_engine.Prelude.{[], ◌∷◌, ok, ◌≡◌, ◌↔◌, refl}
use pdx_artifact_engine.Core.Provenance.{
  Payload, Bundle, Contract, validate_provenance_bundle, create_provenance_bundle,
}
use pdx_artifact_engine.Core.Provenance.Coherence.{
  IsCoherent, validate-IsCoherent_iff, create-IsCoherent,
}

abbrev contract : Contract Unit
contract = record { schema_errors = λ b. []; canonical_digest = λ p. p.bundle_id }

abbrev one_run : Payload Unit
one_run = record {
  bundle_id = "b1";
  source_run_id = "r1";
  generated_at = "2026-01-01T00:00:00Z";
  entities = record { id = "report"; rest = tt } ∷ [];
  activities = record { id = "render"; rest = tt } ∷ [];
  agents = [];
  relations = record { subject_id = "report"; object_id = "render"; rest = tt } ∷ [];
}

abbrev exported : Bundle Unit
exported = record { payload = one_run; bundle_digest = "b1" }

exports : create_provenance_bundle contract one_run ≡ ok exported
unfolding create_provenance_bundle validate_provenance_bundle
exports = refl

validate-IsCoherent_iff_example :
    (validate_provenance_bundle contract exported ≡ []) ↔ IsCoherent contract exported
validate-IsCoherent_iff_example = validate-IsCoherent_iff contract exported

create-IsCoherent_example : (exported.payload ≡ one_run) × IsCoherent contract exported
create-IsCoherent_example = create-IsCoherent contract one_run exports
