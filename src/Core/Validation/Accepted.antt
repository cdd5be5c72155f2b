-- ===== src/Core/Validation/Accepted.antt =====
-- A plan without semantic errors can be run in some order.
use pdx_artifact_engine.Prelude.{
  String, List, [], ◌∷◌, ◌++◌, true, false, Option, none, some, Dict, map, elem, unique, distinct,
  distinct-eq-nil, fresh_from, fresh_from-nil, all, all-append, ◌==◌, ==_iff, string_eq, ◌≡◌, refl,
  sym, ◌∙◌, arith, inl, inr, Bool-cases, append-eq-nil_iff,
}
use pdx_artifact_engine.Core.Validation.{edges_from}
use pdx_artifact_engine.Core.Validation.Walk.{is_path, is_cycle}
use pdx_artifact_engine.Core.Validation.Cycles.{graph_has_cycle-IsAnswer}
use pdx_artifact_engine.Core.Validation.Plan.{
  Step, PlanError, dependency_cycle, field_errors, ids_of, repeated, sort_insert, sorted,
  link_steps, no_links, cycle_errors, and_then_errors, semantic_execution_plan_errors, duplicate_id,
}
use pdx_artifact_engine.Core.Validation.Links.{
  waits_for, is_chain, is_dependency_cycle, link_steps-adds, link_steps-known,
}

-- A plan whose steps have different ids, depend on steps of the plan, and on none in a circle.
pub record IsAccepted (steps : List Step) : Type 0 where
  pub unique_ids : unique (ids_of steps) ≡ true
  pub known : all (λ (s : Step). all (λ dep. elem dep (ids_of steps)) s.depends_on) steps ≡ true
  pub acyclic : (nodes : List String) → is_dependency_cycle steps nodes ≡ false

repeated-nil : (seen ids : List String) → repeated seen ids ≡ [] → fresh_from seen ids ≡ true
repeated-nil seen [] h = refl
repeated-nil seen (x ∷ ids) h = elim (Bool-cases (elem x seen)) [
  | inl again ↦ absurd (ground arith)
  | inr new ↦ let rest = repeated-nil (seen ++ x ∷ []) ids (ground arith) in rw (new, rest) refl
]

sort_insert-nil : (x : String) (ys : List String) → sort_insert x ys ≡ [] → false ≡ true
sort_insert-nil x [] h = absurd (cc)
sort_insert-nil x (y ∷ ys) h = ground arith

sorted-nil : (xs : List String) → sorted xs ≡ [] → xs ≡ []
sorted-nil [] h = refl
sorted-nil (x ∷ xs) h = absurd (cc (sort_insert-nil x (sorted xs) h))

map-nil : (xs : List String) → map duplicate_id xs ≡ [] → xs ≡ []
map-nil [] h = refl
map-nil (x ∷ xs) h = absurd (cc)

-- The steps of a chain but the first are steps of the plan.
waits_for-ids :
    (steps : List Step) (x y : String) → waits_for steps x y ≡ true → elem y (ids_of steps) ≡ true
waits_for-ids [] x y h = absurd (cc)
waits_for-ids (s ∷ steps) x y h = elim (Bool-cases (s.id == y)) [
  | inl same ↦ ground (arith, ==_iff s.id y, ==_iff y s.id)
  | inr other ↦ let rest = waits_for-ids steps x y (ground arith) in ground arith
]

module _ (steps : List Step) (ids : List String) (edges : Dict (List String))
    (same : (v : String) → elem v ids ≡ elem v (ids_of steps))
    (adds : (x y : String)
      → elem x ids ≡ true
      → waits_for steps x y ≡ true
      → elem y (edges_from edges x) ≡ true) where
  chain-ids :
      (x : String) (xs : List String)
      → is_chain steps (x ∷ xs) ≡ true
      → all (λ v. elem v ids) xs ≡ true
  chain-ids x [] h = refl
  chain-ids x (y ∷ xs) h =
      let here = same y ∙ waits_for-ids steps x y (ground arith) in
      let rest = chain-ids y xs (ground arith) in rw (here, rest) refl

  chain-path :
      (x : String) (xs : List String)
      → elem x ids ≡ true
      → is_chain steps (x ∷ xs) ≡ true
      → is_path edges (x ∷ xs) ≡ true
  chain-path x [] node h = refl
  chain-path x (y ∷ xs) node h =
      let edge = adds x y node (ground arith) in
      let next = same y ∙ waits_for-ids steps x y (ground arith) in
      let rest = chain-path y xs next (ground arith) in rw (edge, rest) refl

  no_dependency_cycle :
      ((other : List String) → all (λ v. elem v ids) other ≡ true → is_cycle edges other ≡ false)
      → (nodes : List String) → is_dependency_cycle steps nodes ≡ false
  no_dependency_cycle none_is [] = refl
  no_dependency_cycle none_is (x ∷ xs) = elim (Bool-cases (is_dependency_cycle steps (x ∷ xs))) [
    | inl one ↦
        let inside = chain-ids x (xs ++ x ∷ []) one in
        let parts = sym (all-append (λ v. elem v ids) xs (x ∷ [])) ∙ inside in
        let node : elem x ids ≡ true = ground arith in
        let path = chain-path x (xs ++ x ∷ []) node one in
        let no_cycle = none_is (x ∷ xs) (ground arith) in absurd (cc)
    | inr not_one ↦ not_one
  ]

-- What no errors at all mean for the parts.
no_errors :
    (errors : List PlanError) (graph : Option (List String))
    → and_then_errors errors (cycle_errors graph) ≡ some []
    → (errors ≡ []) × (graph ≡ some [])
no_errors errors none h = absurd (cc)
no_errors errors (some []) h = (((append-eq-nil_iff errors []).0 (ground arith)).0, refl)
no_errors errors (some (x ∷ xs)) h =
    absurd (cc (((append-eq-nil_iff errors (dependency_cycle (x ∷ xs) ∷ [])).0 (ground arith)).1))

-- A plan in which the semantic tests find no error, in whatever order a set of ids is gone through, has
-- steps with different ids, each dependency is on a step of the plan, and no list of ids is a circle of
-- dependencies, so that the steps can be run each after those that it depends on.
pub semantic_errors-IsAccepted :
    (set_of : List String → List String) (steps : List Step)
    → ((xs : List String) (v : String) → elem v (set_of xs) ≡ elem v xs)
    → semantic_execution_plan_errors set_of steps ≡ some []
    → IsAccepted steps
unfolding semantic_execution_plan_errors
semantic_errors-IsAccepted set_of steps law h =
    let ids = set_of (ids_of steps) in
    let links = link_steps ids 0 steps (no_links ids) in
    let dupes = sorted (distinct (repeated [] (ids_of steps))) in
    let (errors, graph) = no_errors _ _ h in
    let (fields, later) =
      (append-eq-nil_iff (field_errors 0 steps) (map duplicate_id dupes ++ links.errors)).0
        errors in
    let (no_dupes, no_unknown) =
      (append-eq-nil_iff (map duplicate_id dupes) links.errors).0 later in
    let (start, known) = link_steps-known ids 0 steps (no_links ids) no_unknown in
    let new =
      repeated-nil [] (ids_of steps) (distinct-eq-nil _ (sorted-nil _ (map-nil dupes no_dupes))) in
    let (nodes, answer, means) = graph_has_cycle-IsAnswer ids links.edges in
    let nothing : nodes ≡ [] = cc in
    record {
      unique_ids = sym (fresh_from-nil (ids_of steps)) ∙ new;
      known = known_in steps known;
      acyclic =
          no_dependency_cycle steps ids links.edges (law (ids_of steps))
            (λ x y node w. link_steps-adds ids 0 steps x y (no_links ids) node w)
            (means.complete nothing);
    }
  where
    each_in :
        (deps : List String)
        → all (λ dep. elem dep (set_of (ids_of steps))) deps ≡ true
        → all (λ dep. elem dep (ids_of steps)) deps ≡ true
    each_in [] h = refl
    each_in (dep ∷ deps) h =
        let same = law (ids_of steps) dep in let rest = each_in deps (ground arith) in ground arith

    known_in :
        (some_steps : List Step)
        → all (λ (s : Step). all (λ dep. elem dep (set_of (ids_of steps))) s.depends_on) some_steps
          ≡ true
        → all (λ (s : Step). all (λ dep. elem dep (ids_of steps)) s.depends_on) some_steps ≡ true
    known_in [] h = refl
    known_in (s ∷ rest) h =
        let here = each_in s.depends_on (ground arith) in
        let later = known_in rest (ground arith) in rw (here, later) refl
