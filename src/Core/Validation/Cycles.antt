-- ===== src/Core/Validation/Cycles.antt =====
-- The cycle test against what a cycle is.
use pdx_artifact_engine.Prelude.{
  ℕ, ◌≤◌, String, List, [], ◌∷◌, true, false, some, Dict, lookup, map, elem, all, length, ==_refl,
  string_eq, ◌≡◌, ◌≢◌, refl, arith, inl, inr, Bool-cases,
}
use pdx_artifact_engine.Core.Validation.{
  Color, white, gray, black, Outcome, color_of, enter_white, dfs, search_all, nodes_of,
  graph_has_cycle,
}
use pdx_artifact_engine.Core.Validation.Walk.{is_cycle, settled_cycle}
use pdx_artifact_engine.Core.Validation.Whites.{whites}
use pdx_artifact_engine.Core.Validation.Search.{
  IsState, IsSearched, found, settles, then-IsSearched, skip-IsSearched,
}
use pdx_artifact_engine.Core.Validation.Depth.{dfs-Searches}

all_white : (v : String) (is : List String) → color_of v (map (λ i. (i, white)) is) ≡ white
unfolding lookup
all_white v [] = refl
all_white v (i ∷ is) = ground (arith, all_white v is)

whites_all : (color : Dict Color) (is : List String) → whites color is ≤ length is
whites_all color [] = ground arith
whites_all color (i ∷ is) = ground (arith, whites_all color is)

module _ (ids : List String) (edges : Dict (List String)) where
  enter-IsSearched :
      (fuel : ℕ) (u : String) (done : List String) (color : Dict Color) (c : Color)
      → color_of u color ≡ c
      → IsState ids edges [] done color
      → elem u ids ≡ true
      → whites color ids ≤ fuel
      → IsSearched ids edges [] done color (u ∷ []) (enter_white (dfs fuel ids edges []) u color c)
  enter-IsSearched fuel u done color white is st node enough =
      dfs-Searches ids edges fuel [] refl u done color st is node refl enough
  enter-IsSearched fuel u done color gray is st node enough = absurd (cc (st.on_stack u is))
  enter-IsSearched fuel u done color black is st node enough =
      skip-IsSearched ids edges [] done color u st (λ m. st.is_done u is)

  search_all-IsSearched :
      (fuel : ℕ) (us done : List String) (color : Dict Color)
      → IsState ids edges [] done color
      → all (λ u. elem u ids) us ≡ true
      → whites color ids ≤ fuel
      → IsSearched ids edges [] done color us (search_all (dfs fuel ids edges []) color us)
  search_all-IsSearched fuel [] done color st inside enough = settles color (record {
    all_done = done;
    state = st;
    asked = λ v m i. absurd (cc);
    kept = λ v m. m;
    less = omega arith;
  })
  search_all-IsSearched fuel (u ∷ us) done color st inside enough =
      then-IsSearched ids edges [] done color u us
        (enter_white (dfs fuel ids edges []) u color (color_of u color))
        (λ c. search_all (dfs fuel ids edges []) c us)
        (enter-IsSearched fuel u done color (color_of u color) refl st (ground arith) enough)
        (λ after h.
          search_all-IsSearched fuel us h.all_done after h.state (ground arith)
            (omega (arith, h.less, enough)))

  -- What an answer of the test means.
  pub record IsAnswer (nodes : List String) : Type 0 where
    pub sound : nodes ≢ [] → (is_cycle edges nodes ≡ true) × (all (λ v. elem v ids) nodes ≡ true)
    pub complete :
        nodes ≡ []
        → (other : List String) → all (λ v. elem v ids) other ≡ true
        → is_cycle edges other ≡ false

  IsAnswer-of :
      (out : Outcome) (color : Dict Color)
      → IsSearched ids edges [] [] color ids out
      → (nodes : List String) × (nodes_of out ≡ some nodes) × IsAnswer nodes
  IsAnswer-of out color (found nodes is inside) =
      (nodes, refl, record { sound = λ e. (is, inside); complete = λ e. absurd (ground arith) })
  IsAnswer-of out color (settles after h) = (
    [],
    refl,
    record { sound = λ differs. absurd (differs refl); complete = λ e other. none_left other },
  )
    where
      none_left :
          (other : List String) → all (λ v. elem v ids) other ≡ true → is_cycle edges other ≡ false
      none_left [] inside = refl
      none_left (x ∷ xs) inside = elim (Bool-cases (is_cycle edges (x ∷ xs))) [
        | inl one ↦
            let out = settled_cycle ids edges h.all_done x xs h.state.settled one inside in
            let in_ = h.asked x (ground arith) (ground arith) in absurd (cc)
        | inr not_one ↦ not_one
      ]

all-elem_self :
    (xs ys : List String)
    → ((v : String) → elem v xs ≡ true → elem v ys ≡ true)
    → all (λ v. elem v ys) xs ≡ true
all-elem_self [] ys h = refl
all-elem_self (x ∷ xs) ys h =
    let first = h x (ground (arith, ==_refl x)) in
    let rest = all-elem_self xs ys (λ v m. h v (ground arith)) in ground arith

-- The cycle test on a graph always ends, with as much fuel as there are nodes. If it answers with
-- nodes, they are nodes of the graph, each has an edge to the next, and the last has one to the first. If
-- it answers with none, no list of nodes of the graph is a cycle in this sense.
pub graph_has_cycle-IsAnswer :
    (ids : List String) (edges : Dict (List String))
    → (nodes : List String) × (graph_has_cycle ids edges ≡ some nodes) × IsAnswer ids edges nodes
unfolding graph_has_cycle
graph_has_cycle-IsAnswer ids edges = IsAnswer-of ids edges _ (map (λ i. (i, white)) ids) (
    search_all-IsSearched ids edges (length ids) ids [] (map (λ i. (i, white)) ids)
      (record {
        on_stack = λ v h. absurd (cc (all_white v ids));
        is_done = λ v h. absurd (cc (all_white v ids));
        settled = refl;
      })
      (all-elem_self ids ids (λ v m. m)) (whites_all _ ids))
