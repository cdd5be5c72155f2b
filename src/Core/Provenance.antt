-- ===== src/Core/Provenance.antt =====
-- packages/pdx_artifact_core/src/pdx_artifact_core/provenance.py: bundles of nodes and relations.
use pdx_artifact_engine.Prelude.{
  ℕ, suc, String, List, [], ◌∷◌, ◌++◌, map, Bool, true, false, not, Result, ok, raise, ◌>>=◌, ◌>>◌,
  guard, is_empty, when, if◌then◌else◌, ◌==◌, string_eq, nat_eq, elem, length, distinct,
}
pub mod Coherence
mod Tests

-- `J` is the JSON values of the other keys.
pub record Node (J : Type 0) : Type 0 where
  pub id : String
  pub rest : J

pub record Relation (J : Type 0) : Type 0 where
  pub subject_id : String
  pub object_id : String
  pub rest : J

-- A bundle without its digest.
pub record Payload (J : Type 0) : Type 0 where
  pub bundle_id : String
  pub source_run_id : String
  pub generated_at : String
  pub entities : List (Node J)
  pub activities : List (Node J)
  pub agents : List (Node J)
  pub relations : List (Relation J)

pub record Bundle (J : Type 0) : Type 0 where
  pub payload : Payload J
  pub open payload use *
  pub bundle_digest : String

pub data Problem : Type 0 where
  schema : String → Problem
  ids_not_unique digest_mismatch : Problem
  unknown_subject unknown_object : ℕ → Problem

pub data ProvenanceError : Type 0 where
  invalid_bundle : List Problem → ProvenanceError

-- The JSON schema, and the digest of canonical JSON.
pub record Contract (J : Type 0) : Type 0 where
  pub schema_errors : Bundle J → List Problem
  pub canonical_digest : Payload J → String

abbrev pub ids_of : {J : Type 0} → List (Node J) → List String
ids_of [] = []
ids_of (node ∷ nodes) = node.id ∷ ids_of nodes

-- the ids of the three groups, one after another
abbrev pub node_ids : {J : Type 0} → Payload J → List String
node_ids p = ids_of p.entities ++ (ids_of p.activities ++ ids_of p.agents)

-- the loop over the relations
abbrev pub relation_errors : {J : Type 0} → List String → ℕ → List (Relation J) → List Problem
relation_errors known index [] = []
relation_errors known index (r ∷ rs) =
    when (not (elem r.subject_id known)) (unknown_subject index)
    ++ (when (not (elem r.object_id known)) (unknown_object index)
        ++ relation_errors known (suc index) rs)

module _ {J : Type 0} (c : Contract J) where
  unfoldable pub validate_provenance_bundle : Bundle J → List Problem
  validate_provenance_bundle bundle =
      let errors = c.schema_errors bundle in
      let ids = node_ids bundle.payload in
      if not (is_empty errors)
      then errors
      else when (not (length ids == length (distinct ids))) ids_not_unique
        ++ (relation_errors ids 0 bundle.relations
            ++ when (not (c.canonical_digest bundle.payload == bundle.bundle_digest))
                digest_mismatch)

  unfoldable pub create_provenance_bundle : Payload J → Result ProvenanceError (Bundle J)
  create_provenance_bundle p =
      let bundle : Bundle J = record { payload = p; bundle_digest = c.canonical_digest p } in
      do
        guard (is_empty (validate_provenance_bundle bundle))
            (invalid_bundle (validate_provenance_bundle bundle))
        ok bundle
