-- ===== src/Core/Provenance/Coherence.antt =====
-- What a valid bundle is.
use pdx_artifact_engine.Prelude.{
  ℕ, suc, ◌≤◌, String, List, [], ◌∷◌, Bool, true, not, ◌&&◌, is_empty, is_empty_iff,
  append-eq-nil_iff, when, ◌==◌, ==_iff, string_eq, nat_eq, elem, all, unique, length, distinct, ok,
  guard_passed, ◌≡◌, ◌↔◌, refl, arith,
}
use pdx_artifact_engine.Core.Provenance.{
  Relation, Payload, Bundle, Problem, Contract, node_ids, relation_errors,
  validate_provenance_bundle, create_provenance_bundle,
}

length-distinct_le : (xs : List String) → length (distinct xs) ≤ length xs
length-distinct_le [] = ground arith
length-distinct_le (x ∷ xs) = ground (arith, length-distinct_le xs)

length-distinct_iff :
    (xs : List String) → ((length xs == length (distinct xs)) ≡ true) ↔ (unique xs ≡ true)
length-distinct_iff [] = ground arith
length-distinct_iff (x ∷ xs) = ground (arith, length-distinct_iff xs, length-distinct_le xs)

abbrev pub joins : {J : Type 0} → List String → Relation J → Bool
joins known r = elem r.subject_id known && elem r.object_id known

relation_errors_iff :
    {J : Type 0} (known : List String) (index : ℕ) (rs : List (Relation J))
    → (relation_errors known index rs ≡ []) ↔ (all (joins known) rs ≡ true)
relation_errors_iff known index [] = ground arith
relation_errors_iff known index (r ∷ rs) = ground (arith, relation_errors_iff known (suc index) rs)

module _ {J : Type 0} (c : Contract J) where
  -- A bundle that the schema accepts, in which every node has an id of its own, every relation joins
  -- two nodes of the bundle, and the digest is that of the content.
  pub record IsCoherent (bundle : Bundle J) : Type 0 where
    pub shaped : c.schema_errors bundle ≡ []
    pub one_id_each : unique (node_ids bundle.payload) ≡ true
    pub joined : all (joins (node_ids bundle.payload)) bundle.relations ≡ true
    pub digest : c.canonical_digest bundle.payload ≡ bundle.bundle_digest

  -- A bundle has no errors exactly where the schema accepts it, the ids of all its nodes differ, its
  -- relations join its nodes, and its digest is that of its content.
  pub validate-IsCoherent_iff :
      (bundle : Bundle J) → (validate_provenance_bundle c bundle ≡ []) ↔ IsCoherent bundle
  unfolding validate_provenance_bundle
  validate-IsCoherent_iff bundle =
      let ids = node_ids bundle.payload in
      let unique_ids = length-distinct_iff ids in
      let joined = relation_errors_iff ids 0 bundle.relations in
      let digest = ==_iff (c.canonical_digest bundle.payload) bundle.bundle_digest in
      let empty = is_empty_iff (c.schema_errors bundle) in
      let last =
        when (not (c.canonical_digest bundle.payload == bundle.bundle_digest))
          Problem.digest_mismatch in
      let parts = append-eq-nil_iff (relation_errors ids 0 bundle.relations) last in
      (
        λ h. record {
          shaped = ground (arith, empty);
          one_id_each = ground (arith, empty, unique_ids);
          joined = ground (arith, empty, parts, joined);
          digest = ground (arith, empty, parts, digest);
        },
        λ k. rw (k.shaped, unique_ids.1 k.one_id_each, joined.1 k.joined, digest.1 k.digest) refl,
      )

  -- A bundle that was created is coherent, and holds what it was created from.
  pub create-IsCoherent :
      (p : Payload J) {bundle : Bundle J}
      → create_provenance_bundle c p ≡ ok bundle
      → (bundle.payload ≡ p) × IsCoherent bundle
  unfolding create_provenance_bundle
  create-IsCoherent p {bundle} h =
      let made : Bundle J = record { payload = p; bundle_digest = c.canonical_digest p } in
      let (g, rest) = guard_passed (is_empty (validate_provenance_bundle c made)) _ _ h in
      let same : made ≡ bundle = cc rest in
      rw (← same) (
        refl,
        (validate-IsCoherent_iff made).0 ((is_empty_iff (validate_provenance_bundle c made)).0 g),
      )
