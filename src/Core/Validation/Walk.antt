-- ===== src/Core/Validation/Walk.antt =====
-- Walks along the edges of a graph, and lists that no walk stays in.
use pdx_artifact_engine.Prelude.{
  String, List, [], ◌∷◌, ◌++◌, Bool, true, false, not, ◌&&◌, ◌||◌, Dict, elem, all, all-append,
  ◌==◌, ==_iff, string_eq, ◌≡◌, refl, sym, ap, ◌∙◌, subst, arith, inl, inr, Bool-cases,
}
use pdx_artifact_engine.Core.Validation.{edges_from, from_index}

module _ (edges : Dict (List String)) where
  -- Each node has an edge to the next.
  abbrev pub is_path : List String → Bool
  is_path [] = true
  is_path (x ∷ []) = true
  is_path (x ∷ y ∷ rest) = elem y (edges_from edges x) && is_path (y ∷ rest)

  -- the edges from each node to the next, and from the last to the first
  abbrev pub is_cycle : List String → Bool
  is_cycle [] = false
  is_cycle (x ∷ xs) = is_path (x ∷ (xs ++ x ∷ []))

  pub path-snoc :
      (st : List String) (u v : String)
      → is_path (st ++ u ∷ []) ≡ true
      → elem v (edges_from edges u) ≡ true
      → is_path ((st ++ u ∷ []) ++ v ∷ []) ≡ true
  path-snoc [] u v h e = ground arith
  path-snoc (x ∷ []) u v h e = ground arith
  path-snoc (x ∷ y ∷ st) u v h e = ground (arith, path-snoc (y ∷ st) u v)

  path-tail : (x : String) (xs : List String) → is_path (x ∷ xs) ≡ true → is_path xs ≡ true
  path-tail x [] h = refl
  path-tail x (y ∷ xs) h = ground arith

  -- The part of a path from a node to its end, if there is an edge back, is a cycle.
  pub from_index-cycle :
      (v : String) (st : List String)
      → elem v st ≡ true
      → is_path (st ++ v ∷ []) ≡ true
      → is_cycle (from_index v st) ≡ true
  from_index-cycle v [] m h = absurd (cc)
  from_index-cycle v (x ∷ xs) m h = elim (Bool-cases (x == v)) [
    | inl same ↦
        rw same (subst (λ z. is_path (x ∷ (xs ++ z ∷ [])) ≡ true) (sym ((==_iff x v).0 same)) h)
    | inr other ↦ rw other (
        from_index-cycle v xs (ground (arith, ==_iff v x, ==_iff x v))
          (path-tail x (xs ++ v ∷ []) h))
  ]

all-elem :
    (p : String → Bool) (xs : List String) (v : String)
    → all p xs ≡ true
    → elem v xs ≡ true
    → p v ≡ true
all-elem p [] v h m = absurd (cc)
all-elem p (x ∷ xs) v h m = elim (Bool-cases (v == x)) [
  | inl same ↦ ap p ((==_iff v x).0 same) ∙ (ground arith)
  | inr other ↦ all-elem p xs v (ground arith) (ground arith)
]

module _ (ids : List String) (edges : Dict (List String)) where
  -- Each node of the list has its edges to later nodes of it, as far as they are to nodes at all.
  abbrev pub is_settled : List String → Bool
  is_settled [] = true
  is_settled (x ∷ xs) =
      all (λ v. not (elem v ids) || elem v xs) (edges_from edges x) && is_settled xs

  -- The edges from a settled list lead into the rest of it.
  settled_edge :
      (y : String) (b : List String) (x v : String)
      → is_settled (y ∷ b) ≡ true
      → elem x (y ∷ b) ≡ true
      → elem v (edges_from edges x) ≡ true
      → elem v ids ≡ true
      → elem v b ≡ true
  settled_edge y b x v s m e i = elim (Bool-cases (x == y)) [
    | inl same ↦
        let here =
          all-elem (λ v. not (elem v ids) || elem v b) (edges_from edges y) v (ground arith)
            (subst (λ z. elem v (edges_from edges z) ≡ true) ((==_iff x y).0 same) e) in
        ground arith
    | inr other ↦ later b (ground arith) (ground arith)
  ]
    where
      later : (b : List String) → is_settled b ≡ true → elem x b ≡ true → elem v b ≡ true
      later [] s m = absurd (cc)
      later (z ∷ b) s m = elim (Bool-cases (x == z)) [
        | inl same ↦
            let here =
              all-elem (λ v. not (elem v ids) || elem v b) (edges_from edges z) v (ground arith)
                (subst (λ z. elem v (edges_from edges z) ≡ true) ((==_iff x z).0 same) e) in
            ground arith
        | inr other ↦ let rest = later b (ground arith) (ground arith) in ground arith
      ]

  -- A path in a settled list goes on in the rest of it.
  settled_path :
      (y : String) (b : List String) (x : String) (xs : List String)
      → is_settled (y ∷ b) ≡ true
      → is_path edges (x ∷ xs) ≡ true
      → elem x (y ∷ b) ≡ true
      → all (λ v. elem v ids) xs ≡ true
      → all (λ v. elem v b) xs ≡ true
  settled_path y b x [] s h m i = refl
  settled_path y b x (z ∷ xs) s h m i =
      let next = settled_edge y b x z s m (ground arith) (ground arith) in
      let rest = settled_path y b z xs s (ground arith) (ground arith) (ground arith) in
      ground arith

  -- No cycle of nodes lies in a settled list.
  pub settled_cycle :
      (b : List String) (x : String) (xs : List String)
      → is_settled b ≡ true
      → is_cycle edges (x ∷ xs) ≡ true
      → all (λ v. elem v ids) (x ∷ xs) ≡ true
      → elem x b ≡ false
  settled_cycle [] x xs s h i = refl
  settled_cycle (y ∷ b) x xs s h i = elim (Bool-cases (elem x (y ∷ b))) [
    | inl inside ↦
        let again =
          settled_path y b x (xs ++ x ∷ []) s h inside
            (ground (arith, all-append (λ v. elem v ids) xs (x ∷ []))) in
        let later = settled_cycle b x xs (ground arith) h i in
        absurd (ground (arith, all-append (λ v. elem v b) xs (x ∷ [])))
    | inr outside ↦ outside
  ]
