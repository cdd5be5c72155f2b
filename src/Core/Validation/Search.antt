-- ===== src/Core/Validation/Search.antt =====
-- What a search finds: a cycle, or a settled list of all that it has been asked for.
use pdx_artifact_engine.Prelude.{
  ℕ, ◌≤◌, String, List, [], ◌∷◌, ◌++◌, Bool, true, Dict, elem, all, ◌==◌, ==_iff, ==_refl,
  string_eq, ◌≡◌, refl, sym, subst, arith, inl, inr, Bool-cases,
}
use pdx_artifact_engine.Core.Validation.{
  by_color, follow_edge, Color, white, gray, black, Outcome, cycle, colored, color_of, from_index,
  and_on, follow,
}
use pdx_artifact_engine.Core.Validation.Walk.{is_path, is_cycle, is_settled, from_index-cycle}
use pdx_artifact_engine.Core.Validation.Whites.{whites}

module _ (ids : List String) (edges : Dict (List String)) where
  -- The colors of a search with a stack, after which the list `done` is settled.
  pub record IsState (stack done : List String) (color : Dict Color) : Type 0 where
    pub on_stack : (v : String) → color_of v color ≡ gray → elem v stack ≡ true
    pub is_done : (v : String) → color_of v color ≡ black → elem v done ≡ true
    pub settled : is_settled ids edges done ≡ true

  -- What a search for nodes adds, where it finds no cycle.
  pub record HasSettled (stack done : List String) (color : Dict Color) (vs : List String)
      (after : Dict Color) : Type 0 where
    pub all_done : List String
    pub state : IsState stack all_done after
    pub asked : (v : String) → elem v vs ≡ true → elem v ids ≡ true → elem v all_done ≡ true
    pub kept : (v : String) → elem v done ≡ true → elem v all_done ≡ true
    pub less : whites after ids ≤ whites color ids

  pub data IsSearched (stack done : List String) (color : Dict Color) (vs : List String)
      : Outcome → Type 0 where
    found :
        (nodes : List String)
        → is_cycle edges nodes ≡ true
        → all (λ v. elem v ids) nodes ≡ true
        → IsSearched stack done color vs (cycle nodes)
    settles :
        (after : Dict Color)
        → HasSettled stack done color vs after
        → IsSearched stack done color vs (colored after)

  from_index-all :
      (p : String → Bool) (v : String) (st : List String)
      → all p st ≡ true
      → all p (from_index v st) ≡ true
  from_index-all p v [] h = refl
  from_index-all p v (x ∷ xs) h = ground (arith, from_index-all p v xs)

  -- one search after another
  pub then-IsSearched :
      (stack done : List String) (color : Dict Color) (v : String) (vs : List String)
      (out : Outcome) (next : Dict Color → Outcome)
      → IsSearched stack done color (v ∷ []) out
      → ((after : Dict Color) (h : HasSettled stack done color (v ∷ []) after)
          → IsSearched stack h.all_done after vs (next after))
      → IsSearched stack done color (v ∷ vs) (and_on out next)
  then-IsSearched stack done color v vs out next (found nodes is inside) more =
      found nodes is inside
  then-IsSearched stack done color v vs out next (settles after h) more =
      both (next after) (more after h)
    where
      both :
          (out : Outcome)
          → IsSearched stack h.all_done after vs out
          → IsSearched stack done color (v ∷ vs) out
      both out (found nodes is inside) = found nodes is inside
      both out (settles last g) = settles last (record {
        all_done = g.all_done;
        state = g.state;
        asked = λ w m i. elim (Bool-cases (w == v)) [
          | inl same ↦ g.kept w (h.asked w (ground arith) i)
          | inr other ↦ g.asked w (ground arith) i
        ];
        kept = λ w m. g.kept w (h.kept w m);
        less = omega (arith, g.less, h.less);
      })

  -- a node that needs no search
  pub skip-IsSearched :
      (stack done : List String) (color : Dict Color) (v : String)
      → IsState stack done color
      → (elem v ids ≡ true → elem v done ≡ true)
      → IsSearched stack done color (v ∷ []) (colored color)
  skip-IsSearched stack done color v st here = settles color (record {
    all_done = done;
    state = st;
    asked = λ w m i.
        let is : v ≡ w = sym ((==_iff w v).0 (ground arith)) in
        subst (λ z. elem z done ≡ true) is (here (subst (λ z. elem z ids ≡ true) (sym is) i));
    kept = λ w m. m;
    less = omega arith;
  })

  -- What a search from a white node has to do, on a stack and with some fuel.
  abbrev pub Searches : ℕ → List String → (String → Dict Color → Outcome) → Type 0
  Searches fuel stack search =
      (v : String) (done : List String) (color : Dict Color)
      → IsState stack done color
      → color_of v color ≡ white
      → elem v ids ≡ true
      → is_path edges (stack ++ v ∷ []) ≡ true
      → whites color ids ≤ fuel
      → IsSearched stack done color (v ∷ []) (search v color)

  module _ (fuel : ℕ) (stack : List String) (enter : String → Dict Color → Outcome)
      (searches : Searches fuel stack enter) where
    by_color-IsSearched :
        (v : String) (done : List String) (color : Dict Color) (c : Color)
        → color_of v color ≡ c
        → all (λ w. elem w ids) stack ≡ true
        → IsState stack done color
        → elem v ids ≡ true
        → is_path edges (stack ++ v ∷ []) ≡ true
        → whites color ids ≤ fuel
        → IsSearched stack done color (v ∷ []) (by_color enter stack v color c)
    by_color-IsSearched v done color white is inside st node path enough =
        searches v done color st is node path enough
    by_color-IsSearched v done color gray is inside st node path enough =
        found (from_index v stack) (from_index-cycle edges v stack (st.on_stack v is) path)
          (from_index-all (λ w. elem w ids) v stack inside)
    by_color-IsSearched v done color black is inside st node path enough =
        skip-IsSearched stack done color v st (λ m. st.is_done v is)

    follow_edge-IsSearched :
        (v : String) (done : List String) (color : Dict Color)
        → all (λ w. elem w ids) stack ≡ true
        → IsState stack done color
        → is_path edges (stack ++ v ∷ []) ≡ true
        → whites color ids ≤ fuel
        → IsSearched stack done color (v ∷ []) (follow_edge enter ids stack v color)
    follow_edge-IsSearched v done color inside st path enough = elim (Bool-cases (elem v ids)) [
      | inl node ↦
          rw node
            (by_color-IsSearched v done color (color_of v color) refl inside st node path enough)
      | inr outside ↦ rw outside (skip-IsSearched stack done color v st (λ m. absurd (cc)))
    ]

    pub follow-IsSearched :
        (vs : List String) (done : List String) (color : Dict Color)
        → all (λ w. elem w ids) stack ≡ true
        → IsState stack done color
        → ((v : String) → elem v vs ≡ true → is_path edges (stack ++ v ∷ []) ≡ true)
        → whites color ids ≤ fuel
        → IsSearched stack done color vs (follow enter ids stack color vs)
    follow-IsSearched [] done color inside st paths enough = settles color (record {
      all_done = done;
      state = st;
      asked = λ v m i. absurd (cc);
      kept = λ v m. m;
      less = omega arith;
    })
    follow-IsSearched (v ∷ vs) done color inside st paths enough =
        then-IsSearched stack done color v vs (follow_edge enter ids stack v color)
          (λ c. follow enter ids stack c vs)
          (follow_edge-IsSearched v done color inside st (paths v (ground (arith, ==_refl v)))
            enough)
          (λ after h.
            follow-IsSearched vs h.all_done after inside h.state (λ w m. paths w (ground arith))
              (omega (arith, h.less, enough)))
