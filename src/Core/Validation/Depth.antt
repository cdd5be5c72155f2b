-- ===== src/Core/Validation/Depth.antt =====
-- The search from a node to its depth: `dfs`.
use pdx_artifact_engine.Prelude.{
  ℕ, zero, suc, String, List, [], ◌∷◌, ◌++◌, Bool, true, false, not, ◌||◌, Dict, insert, elem,
  elem-append, all, all-append, ◌==◌, ==_iff, ==_refl, string_eq, if◌then◌else◌, ◌≡◌, ◌≢◌, refl,
  sym, ap, ◌∙◌, subst, arith, inl, inr, ◌⊎◌, Bool-cases,
}
use pdx_artifact_engine.Core.Validation.{
  Color, white, gray, black, Outcome, colored, color_of, edges_from, and_on, dfs,
}
use pdx_artifact_engine.Core.Validation.Walk.{path-snoc}
use pdx_artifact_engine.Core.Validation.Whites.{color_of-insert, whites-insert, whites-enter}
use pdx_artifact_engine.Core.Validation.Search.{
  IsSearched, found, settles, Searches, follow-IsSearched,
}

module _ (ids : List String) (edges : Dict (List String)) where
  -- Colors that turn from gray to black, and from white to gray.
  leave_color :
      (v w : String) (c : Color) (color : Dict Color) {d : Color}
      → color_of w (insert v c color) ≡ d
      → c ≢ d
      → (elem w (v ∷ []) ≡ false) × (color_of w color ≡ d)
  leave_color v w c color {d} h differs = elim (Bool-cases (v == w)) [
    | inl same ↦ absurd (
        differs (
          sym (ap (λ b. if b then c else color_of w color) same)
          ∙ sym (color_of-insert v w c color)
          ∙ h))
    | inr other ↦ (
      ground (arith, ==_iff v w, ==_iff w v),
      sym (ap (λ b. if b then c else color_of w color) other)
          ∙ sym (color_of-insert v w c color)
          ∙ h,
    )
  ]

  -- the node that was colored, or another
  colored_one :
      (v w : String) (c : Color) (color : Dict Color) {d : Color}
      → color_of w (insert v c color) ≡ d
      → (w ≡ v) ⊎ ((elem w (v ∷ []) ≡ false) × (color_of w color ≡ d))
  colored_one v w c color {d} h = elim (Bool-cases (v == w)) [
    | inl same ↦ inl (sym ((==_iff v w).0 same))
    | inr other ↦ inr (
      ground (arith, ==_iff v w, ==_iff w v),
      sym (ap (λ b. if b then c else color_of w color) other)
          ∙ sym (color_of-insert v w c color)
          ∙ h,
    )
  ]

  edges_all :
      (p : String → Bool) (xs : List String)
      → ((v : String) → elem v xs ≡ true → p v ≡ true)
      → all p xs ≡ true
  edges_all p [] h = refl
  edges_all p (x ∷ xs) h =
      let first = h x (ground (arith, ==_refl x)) in
      let rest = edges_all p xs (λ v m. h v (ground arith)) in ground arith

  -- A node that is left: its edges lead into what is settled, and so it is settled itself.
  leave-IsSearched :
      (stack done : List String) (color : Dict Color) (v : String) (out : Outcome)
      → color_of v color ≡ white
      → elem v ids ≡ true
      → IsSearched ids edges (stack ++ v ∷ []) done (insert v gray color) (edges_from edges v) out
      → IsSearched ids edges stack done color
          (v ∷ [])
          (and_on out (λ c. colored (insert v black c)))
  leave-IsSearched stack done color v out is node (found nodes is_one inside) =
      found nodes is_one inside
  leave-IsSearched stack done color v out is node (settles after h) =
      settles (insert v black after) (record {
        all_done = v ∷ h.all_done;
        state = record {
          on_stack = λ w is_gray.
              let (other, was) = leave_color v w black after is_gray (λ e. absurd (cc)) in
              let there = h.state.on_stack w was in ground (arith, elem-append w stack (v ∷ []));
          is_done = λ w is_black. elim (colored_one v w black after is_black) [
            | inl same ↦
                subst (λ z. elem z (v ∷ h.all_done) ≡ true) (sym same) (ground (arith, ==_refl v))
            | inr (other, was) ↦ let there = h.state.is_done w was in ground arith
          ];
          settled =
              let led =
                edges_all (λ w. not (elem w ids) || elem w h.all_done) (edges_from edges v)
                  (λ w m. elim (Bool-cases (elem w ids)) [
                    | inl i ↦ let there = h.asked w m i in rw (i, there) refl
                    | inr out ↦ rw out refl
                  ]) in
              let before = h.state.settled in rw (led, before) refl;
        };
        asked = λ w m i. ground arith;
        kept = λ w m. ground (arith, h.kept w m);
        less =
            let entered = whites-insert v gray color ids refl in
            let left = whites-insert v black after ids refl in omega (arith, h.less, entered, left);
      })

  entered :
      (stack : List String) (v : String)
      → all (λ w. elem w ids) stack ≡ true
      → elem v ids ≡ true
      → all (λ w. elem w ids) (stack ++ v ∷ []) ≡ true
  entered stack v inside node = ground (arith, all-append (λ w. elem w ids) stack (v ∷ []))

  pub dfs-Searches :
      (fuel : ℕ) (stack : List String)
      → all (λ w. elem w ids) stack ≡ true
      → Searches ids edges fuel stack (dfs fuel ids edges stack)
  unfolding dfs
  dfs-Searches zero stack inside v done color st is node path enough =
      let one = whites-enter v gray color ids refl node is in absurd (omega (arith, one, enough))
  dfs-Searches (suc fuel) stack inside v done color st is node path enough =
      leave-IsSearched stack done color v _ is node (
        follow-IsSearched ids edges fuel (stack ++ v ∷ []) (dfs fuel ids edges (stack ++ v ∷ []))
          (dfs-Searches fuel (stack ++ v ∷ []) (entered stack v inside node)) (edges_from edges v)
          done (insert v gray color) (entered stack v inside node)
          (record {
            on_stack = λ w is_gray. elim (colored_one v w gray color is_gray) [
              | inl same ↦
                  subst (λ z. elem z (stack ++ v ∷ []) ≡ true) (sym same)
                    (ground (arith, ==_refl v, elem-append v stack (v ∷ [])))
              | inr (other, was) ↦
                  let there = st.on_stack w was in ground (arith, elem-append w stack (v ∷ []))
            ];
            is_done = λ w is_black.
                st.is_done w (leave_color v w gray color is_black (λ e. absurd (cc))).1;
            settled = st.settled;
          })
          (λ w m. path-snoc edges stack v w path m)
          (let one = whites-enter v gray color ids refl node is in omega (arith, one, enough)))
