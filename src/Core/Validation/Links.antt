-- ===== src/Core/Validation/Links.antt =====
-- Which edges the second loop over the steps adds, and which errors.
use pdx_artifact_engine.Prelude.{
  ℕ, suc, String, List, [], ◌∷◌, ◌++◌, Bool, true, false, ◌&&◌, Dict, lookup-insert, elem,
  elem-append, any, all, ◌==◌, ==_iff, ==_refl, string_eq, if◌then◌else◌, ◌≡◌, refl, sym, subst,
  arith, inl, inr, Bool-cases, append-eq-nil_iff,
}
use pdx_artifact_engine.Core.Validation.{edges_from}
use pdx_artifact_engine.Core.Validation.Plan.{
  Step, unknown_dependency, Links, add_edge, link, link_deps, link_steps,
}

module _ (steps : List Step) where
  -- A step with the second id depends on the first.
  abbrev pub waits_for : String → String → Bool
  waits_for x y = any (λ (s : Step). s.id == y && elem x s.depends_on) steps

  abbrev pub is_chain : List String → Bool
  is_chain [] = true
  is_chain (x ∷ []) = true
  is_chain (x ∷ y ∷ rest) = waits_for x y && is_chain (y ∷ rest)

  -- steps each of which depends on the one before, and the first on the last
  abbrev pub is_dependency_cycle : List String → Bool
  is_dependency_cycle [] = false
  is_dependency_cycle (x ∷ xs) = is_chain (x ∷ (xs ++ x ∷ []))

edges_from-add :
    (dep sid x : String) (edges : Dict (List String))
    → edges_from (add_edge dep sid edges) x
      ≡ (if dep == x then edges_from edges dep ++ sid ∷ [] else edges_from edges x)
edges_from-add dep sid x edges =
    ground (arith, lookup-insert dep x (edges_from edges dep ++ sid ∷ []) edges)

module _ (ids : List String) where
  link-keeps :
      (i : ℕ) (sid dep x y : String) (l : Links)
      → elem y (edges_from l.edges x) ≡ true
      → elem y (edges_from (link ids i sid dep l).edges x) ≡ true
  link-keeps i sid dep x y l m = elim (Bool-cases (elem dep ids)) [
    | inr out ↦ rw out m
    | inl node ↦ elim (Bool-cases (dep == x)) [
      | inl same ↦
          let is : dep ≡ x = (==_iff dep x).0 same in
          rw
            (
              node,
              edges_from-add dep sid x l.edges,
              same,
              elem-append y (edges_from l.edges dep) (sid ∷ []),
              is,
              m,
            )
            refl
      | inr other ↦ rw (node, edges_from-add dep sid x l.edges, other) m
    ]
  ]

  link-adds :
      (i : ℕ) (sid dep : String) (l : Links)
      → elem dep ids ≡ true
      → elem sid (edges_from (link ids i sid dep l).edges dep) ≡ true
  link-adds i sid dep l node =
      rw
        (
          node,
          edges_from-add dep sid dep l.edges,
          ==_refl dep,
          elem-append sid (edges_from l.edges dep) (sid ∷ []),
          ==_refl sid,
        )
        (ground arith)

  link_deps-keeps :
      (i : ℕ) (sid : String) (deps : List String) (x y : String) (l : Links)
      → elem y (edges_from l.edges x) ≡ true
      → elem y (edges_from (link_deps ids i sid deps l).edges x) ≡ true
  link_deps-keeps i sid [] x y l m = m
  link_deps-keeps i sid (dep ∷ deps) x y l m =
      link_deps-keeps i sid deps x y (link ids i sid dep l) (link-keeps i sid dep x y l m)

  link_deps-adds :
      (i : ℕ) (sid : String) (deps : List String) (x : String) (l : Links)
      → elem x ids ≡ true
      → elem x deps ≡ true
      → elem sid (edges_from (link_deps ids i sid deps l).edges x) ≡ true
  link_deps-adds i sid [] x l node m = absurd (cc)
  link_deps-adds i sid (dep ∷ deps) x l node m = elim (Bool-cases (x == dep)) [
    | inl same ↦
        let is : dep ≡ x = sym ((==_iff x dep).0 same) in
        let here = link-adds i sid dep l (subst (λ z. elem z ids ≡ true) (sym is) node) in
        link_deps-keeps i sid deps x sid (link ids i sid dep l)
          (subst (λ z. elem sid (edges_from (link ids i sid dep l).edges z) ≡ true) is here)
    | inr other ↦ link_deps-adds i sid deps x (link ids i sid dep l) node (ground arith)
  ]

  link_steps-keeps :
      (i : ℕ) (steps : List Step) (x y : String) (l : Links)
      → elem y (edges_from l.edges x) ≡ true
      → elem y (edges_from (link_steps ids i steps l).edges x) ≡ true
  link_steps-keeps i [] x y l m = m
  link_steps-keeps i (s ∷ steps) x y l m =
      link_steps-keeps (suc i) steps x y (link_deps ids i s.id s.depends_on l)
        (link_deps-keeps i s.id s.depends_on x y l m)

  -- A dependency on a step of the plan is an edge.
  pub link_steps-adds :
      (i : ℕ) (steps : List Step) (x y : String) (l : Links)
      → elem x ids ≡ true
      → waits_for steps x y ≡ true
      → elem y (edges_from (link_steps ids i steps l).edges x) ≡ true
  link_steps-adds i [] x y l node w = absurd (cc)
  link_steps-adds i (s ∷ steps) x y l node w =
      elim (Bool-cases (s.id == y && elem x s.depends_on)) [
        | inl here ↦
            let is : s.id ≡ y = (==_iff s.id y).0 (ground arith) in
            let added = link_deps-adds i s.id s.depends_on x l node (ground arith) in
            link_steps-keeps (suc i) steps x y (link_deps ids i s.id s.depends_on l) (
              subst (λ z. elem z (edges_from (link_deps ids i s.id s.depends_on l).edges x) ≡ true)
                is added)
        | inr there ↦
            link_steps-adds (suc i) steps x y (link_deps ids i s.id s.depends_on l) node
              (ground arith)
      ]

  link_deps-known :
      (i : ℕ) (sid : String) (deps : List String) (l : Links)
      → (link_deps ids i sid deps l).errors ≡ []
      → (l.errors ≡ []) × (all (λ dep. elem dep ids) deps ≡ true)
  link_deps-known i sid [] l h = (h, refl)
  link_deps-known i sid (dep ∷ deps) l h =
      let (before, rest) = link_deps-known i sid deps (link ids i sid dep l) h in
      elim (Bool-cases (elem dep ids)) [
        | inl node ↦ (ground arith, rw (node, rest) refl)
        | inr out ↦
            absurd (
              cc
                (((append-eq-nil_iff l.errors (unknown_dependency i dep ∷ [])).0 (ground arith)).1))
      ]

  pub link_steps-known :
      (i : ℕ) (steps : List Step) (l : Links)
      → (link_steps ids i steps l).errors ≡ []
      → (l.errors ≡ []) × (all (λ (s : Step). all (λ dep. elem dep ids) s.depends_on) steps ≡ true)
  link_steps-known i [] l h = (h, refl)
  link_steps-known i (s ∷ steps) l h =
      let (before, rest) = link_steps-known (suc i) steps (link_deps ids i s.id s.depends_on l) h in
      let (first, here) = link_deps-known i s.id s.depends_on l before in
      (first, rw (here, rest) refl)
