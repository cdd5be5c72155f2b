-- ===== src/Core/Validation/Tests.antt =====
-- Two graphs of three steps.
use pdx_artifact_engine.Prelude.{String, List, [], ◌∷◌, none, some, Dict, lookup, insert, ◌≡◌, refl}
use pdx_artifact_engine.Core.Validation.{dfs, graph_has_cycle}
use pdx_artifact_engine.Core.Validation.Cycles.{IsAnswer, graph_has_cycle-IsAnswer}
use pdx_artifact_engine.Core.Validation.Plan.{
  Step, semantic_execution_plan_errors, dependency_cycle,
}
use pdx_artifact_engine.Core.Validation.Accepted.{IsAccepted, semantic_errors-IsAccepted}

abbrev ids : List String
ids = "a" ∷ "b" ∷ "c" ∷ []

-- b and c wait for each other
abbrev looped : Dict (List String)
looped = ("a", "b" ∷ []) ∷ ("b", "c" ∷ []) ∷ ("c", "b" ∷ []) ∷ []

abbrev straight : Dict (List String)
straight = ("a", "b" ∷ "c" ∷ []) ∷ ("b", "c" ∷ []) ∷ []

looped_nodes : graph_has_cycle ids looped ≡ some ("b" ∷ "c" ∷ [])
unfolding graph_has_cycle dfs lookup insert
looped_nodes = refl

straight_nodes : graph_has_cycle ids straight ≡ some []
unfolding graph_has_cycle dfs lookup insert
straight_nodes = refl

graph_has_cycle-IsAnswer_example :
    (nodes : List String) × (graph_has_cycle ids looped ≡ some nodes) × IsAnswer ids looped nodes
graph_has_cycle-IsAnswer_example = graph_has_cycle-IsAnswer ids looped

abbrev step : String → List String → Step
step id deps = record {
  id = id;
  kind = "tool";
  transform = none;
  verification = none;
  depends_on = deps;
}

abbrev in_order : List String → List String
in_order xs = xs

accepted :
    semantic_execution_plan_errors in_order
      (step "c" ("b" ∷ []) ∷ step "a" [] ∷ step "b" ("a" ∷ []) ∷ [])
    ≡ some []
unfolding semantic_execution_plan_errors graph_has_cycle dfs lookup insert
accepted = refl

circular :
    semantic_execution_plan_errors in_order
      (step "c" ("b" ∷ []) ∷ step "a" [] ∷ step "b" ("c" ∷ []) ∷ [])
    ≡ some (dependency_cycle ("c" ∷ "b" ∷ []) ∷ [])
unfolding semantic_execution_plan_errors graph_has_cycle dfs lookup insert
circular = refl

semantic_errors-IsAccepted_example :
    IsAccepted (step "c" ("b" ∷ []) ∷ step "a" [] ∷ step "b" ("a" ∷ []) ∷ [])
semantic_errors-IsAccepted_example =
    semantic_errors-IsAccepted in_order
      (step "c" ("b" ∷ []) ∷ step "a" [] ∷ step "b" ("a" ∷ []) ∷ []) (λ xs v. refl) accepted
