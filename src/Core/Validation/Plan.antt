-- ===== src/Core/Validation/Plan.antt =====
-- `_semantic_execution_plan_errors`: the tests of a plan that its schema has accepted.
use Prim.Native.String.{compare}
use text.Mathlib.Text.{is_lt}
use pdx_artifact_engine.Prelude.{
  ℕ, suc, String, List, [], ◌∷◌, ◌++◌, Bool, true, not, ◌&&◌, Option, none, some, Dict, insert, map,
  elem, distinct, when, ltb, ◌==◌, string_eq, if◌then◌else◌,
}
use pdx_artifact_engine.Core.Validation.{edges_from, graph_has_cycle}

-- A step, as the schema has it: `verification` is the length of the list, `depends_on` is empty if missing.
pub record Step : Type 0 where
  pub id : String
  pub kind : String
  pub transform : Option String
  pub verification : Option ℕ
  pub depends_on : List String

pub data PlanError : Type 0 where
  transform_required verification_required : (index : ℕ) → PlanError
  duplicate_id : (id : String) → PlanError
  unknown_dependency : (index : ℕ) (id : String) → PlanError
  dependency_cycle : (nodes : List String) → PlanError

-- `not step.get("transform")`, and a list that is missing or empty
abbrev pub lacks_transform : Step → Bool
lacks_transform s = elim s.transform [ none ↦ true | some t ↦ t == "" ]

abbrev pub lacks_verification : Step → Bool
lacks_verification s = elim s.verification [ none ↦ true | some n ↦ ltb n 1 ]

-- the first loop over the steps
abbrev pub field_errors : ℕ → List Step → List PlanError
field_errors i [] = []
field_errors i (s ∷ steps) =
    when (s.kind == "transform" && lacks_transform s) (transform_required i)
    ++ (when (s.kind == "verify" && lacks_verification s) (verification_required i)
        ++ field_errors (suc i) steps)

abbrev pub ids_of : List Step → List String
ids_of steps = map (λ (s : Step). s.id) steps

-- the ids that stand in `seen` when they come
abbrev pub repeated : List String → List String → List String
repeated seen [] = []
repeated seen (sid ∷ ids) =
    if elem sid seen then sid ∷ repeated (seen ++ sid ∷ []) ids else repeated (seen ++ sid ∷ []) ids

-- `sorted` of texts
abbrev pub sort_insert : String → List String → List String
sort_insert x [] = x ∷ []
sort_insert x (y ∷ ys) = if is_lt (compare y x) then y ∷ sort_insert x ys else x ∷ y ∷ ys

abbrev pub sorted : List String → List String
sorted [] = []
sorted (x ∷ xs) = sort_insert x (sorted xs)

-- The errors and the edges of the second loop, as far as it has come.
pub record Links : Type 0 where
  pub errors : List PlanError
  pub edges : Dict (List String)

-- `edges[dep].append(sid)`
abbrev pub add_edge : String → String → Dict (List String) → Dict (List String)
add_edge dep sid edges = insert dep (edges_from edges dep ++ sid ∷ []) edges

abbrev pub link : List String → ℕ → String → String → Links → Links
link ids i sid dep l =
    if not (elem dep ids)
    then record l { errors = l.errors ++ unknown_dependency i dep ∷ [] }
    else record l { edges = add_edge dep sid l.edges }

abbrev pub link_deps : List String → ℕ → String → List String → Links → Links
link_deps ids i sid [] l = l
link_deps ids i sid (dep ∷ deps) l = link_deps ids i sid deps (link ids i sid dep l)

abbrev pub link_steps : List String → ℕ → List Step → Links → Links
link_steps ids i [] l = l
link_steps ids i (s ∷ steps) l = link_steps ids (suc i) steps (link_deps ids i s.id s.depends_on l)

abbrev pub no_links : List String → Links
no_links ids = record { errors = []; edges = map (λ i. (i, [])) ids }

-- the error of a cycle, if there is one
abbrev pub cycle_errors : Option (List String) → Option (List PlanError)
cycle_errors none = none
cycle_errors (some []) = some []
cycle_errors (some (x ∷ xs)) = some (dependency_cycle (x ∷ xs) ∷ [])

abbrev pub and_then_errors : List PlanError → Option (List PlanError) → Option (List PlanError)
and_then_errors errors none = none
and_then_errors errors (some more) = some (errors ++ more)

-- `set_of` gives the ids of a set in the order in which Python goes through it.
unfoldable pub semantic_execution_plan_errors :
    (set_of : List String → List String) → List Step → Option (List PlanError)
unfolding graph_has_cycle
semantic_execution_plan_errors set_of steps =
    let ids = set_of (ids_of steps) in
    let links = link_steps ids 0 steps (no_links ids) in
    and_then_errors
      (field_errors 0 steps
        ++ (map duplicate_id (sorted (distinct (repeated [] (ids_of steps)))) ++ links.errors))
      (cycle_errors (graph_has_cycle ids links.edges))
