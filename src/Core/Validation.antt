-- ===== src/Core/Validation.antt =====
-- packages/pdx_artifact_core/src/pdx_artifact_core/validate.py: the cycle test on the steps of a plan.
pub mod Walk
pub mod Whites
pub mod Search
pub mod Depth
pub mod Cycles
pub mod Plan
pub mod Links
pub mod Accepted
mod Tests
use pdx_artifact_engine.Prelude.{
  ℕ, zero, suc, String, List, [], ◌∷◌, ◌++◌, Bool, true, false, not, Option, none, some, Dict,
  lookup, insert, map, elem, length, if◌then◌else◌, ◌==◌, string_eq,
}

pub data Color : Type 0 where
  white gray black : Color

-- How a search ends: without fuel, with the nodes of a cycle, or with all that it has colored.
pub data Outcome : Type 0 where
  out_of_fuel : Outcome
  cycle : List String → Outcome
  colored : Dict Color → Outcome

-- `color[v]`, for the nodes that have a color from the start
abbrev pub color_of : String → Dict Color → Color
color_of v color = elim (lookup v color) [ none ↦ white | some c ↦ c ]

-- `edges.get(u, [])`
abbrev pub edges_from : Dict (List String) → String → List String
edges_from edges u = elim (lookup u edges) [ none ↦ [] | some vs ↦ vs ]

-- `stack[stack.index(v):]`
abbrev pub from_index : String → List String → List String
from_index v [] = []
from_index v (x ∷ xs) = if x == v then x ∷ xs else from_index v xs

-- what follows a search that found no cycle
abbrev pub and_on : Outcome → (Dict Color → Outcome) → Outcome
and_on out_of_fuel next = out_of_fuel
and_on (cycle nodes) next = cycle nodes
and_on (colored color) next = next color

-- what the loop of `dfs` does with an edge to a node, by the node's color
abbrev pub by_color :
    (String → Dict Color → Outcome) → List String → String → Dict Color → Color → Outcome
by_color search stack v color gray = cycle (from_index v stack)
by_color search stack v color white = search v color
by_color search stack v color black = colored color

abbrev pub follow_edge :
    (String → Dict Color → Outcome) → List String → List String → String → Dict Color → Outcome
follow_edge search ids stack v color =
    if elem v ids then by_color search stack v color (color_of v color) else colored color

-- the loop of `dfs` over the edges of a node, with the search from a white node
abbrev pub follow :
    (String → Dict Color → Outcome) → List String → List String → Dict Color → List String → Outcome
follow search ids stack color [] = colored color
follow search ids stack color (v ∷ vs) =
    and_on (follow_edge search ids stack v color) (λ c. follow search ids stack c vs)

-- `dfs`
unfoldable pub dfs :
    ℕ → List String → Dict (List String) → List String → String → Dict Color → Outcome
dfs zero ids edges stack u color = out_of_fuel
dfs (suc fuel) ids edges stack u color =
    and_on
      (follow (dfs fuel ids edges (stack ++ u ∷ [])) ids (stack ++ u ∷ []) (insert u gray color)
        (edges_from edges u))
      (λ c. colored (insert u black c))

-- the loop over the nodes
abbrev pub enter_white : (String → Dict Color → Outcome) → String → Dict Color → Color → Outcome
enter_white search u color white = search u color
enter_white search u color gray = colored color
enter_white search u color black = colored color

abbrev pub search_all : (String → Dict Color → Outcome) → Dict Color → List String → Outcome
search_all search color [] = colored color
search_all search color (u ∷ us) =
    and_on (enter_white search u color (color_of u color)) (λ c. search_all search c us)

-- the nodes of the cycle that was found, if one was
abbrev pub nodes_of : Outcome → Option (List String)
nodes_of out_of_fuel = none
nodes_of (cycle nodes) = some nodes
nodes_of (colored color) = some []

-- `_graph_has_cycle`; every node that is entered turns from white to gray, so that as much fuel as there
-- are nodes is enough.
unfoldable pub graph_has_cycle : List String → Dict (List String) → Option (List String)
unfolding dfs
graph_has_cycle ids edges =
    nodes_of (search_all (dfs (length ids) ids edges []) (map (λ i. (i, white)) ids) ids)
