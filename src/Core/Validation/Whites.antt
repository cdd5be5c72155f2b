-- ===== src/Core/Validation/Whites.antt =====
-- The colors of the nodes, and how many are white.
use pdx_artifact_engine.Prelude.{
  ℕ, suc, ◌≤◌, ◌<◌, String, List, [], ◌∷◌, Bool, true, false, Dict, insert, lookup-insert, elem,
  ◌==◌, ==_iff, string_eq, if◌then◌else◌, ◌≡◌, refl, ap, ◌∙◌, subst, arith, inl, inr, ◌⊎◌,
  Bool-cases,
}
use pdx_artifact_engine.Core.Validation.{Color, white, gray, black, color_of}

abbrev pub is_white : Color → Bool
is_white white = true
is_white gray = false
is_white black = false

pub Color-cases : (c : Color) → (c ≡ white) ⊎ ((c ≡ gray) ⊎ (c ≡ black))
Color-cases white = inl refl
Color-cases gray = inr (inl refl)
Color-cases black = inr (inr refl)

-- how many of the nodes are white
abbrev pub whites : Dict Color → List String → ℕ
whites color [] = 0
whites color (i ∷ is) =
    if is_white (color_of i color) then suc (whites color is) else whites color is

pub color_of-insert :
    (u v : String) (c : Color) (color : Dict Color)
    → color_of v (insert u c color) ≡ (if u == v then c else color_of v color)
color_of-insert u v c color = ground (arith, lookup-insert u v c color)

-- A node that is colored is not white any more.
pub whites-insert :
    (u : String) (c : Color) (color : Dict Color) (is : List String)
    → is_white c ≡ false
    → whites (insert u c color) is ≤ whites color is
whites-insert u c color [] h = ground arith
whites-insert u c color (i ∷ is) h = elim (Bool-cases (u == i)) [
  | inl same ↦
      let now = color_of-insert u i c color ∙ ap (λ b. if b then c else color_of i color) same in
      let rest = whites-insert u c color is h in rw (now, h) (ground arith)
  | inr other ↦
      let now = color_of-insert u i c color ∙ ap (λ b. if b then c else color_of i color) other in
      let rest = whites-insert u c color is h in rw now (ground arith)
]

pub whites-enter :
    (u : String) (c : Color) (color : Dict Color) (is : List String)
    → is_white c ≡ false
    → elem u is ≡ true
    → color_of u color ≡ white
    → whites (insert u c color) is < whites color is
whites-enter u c color [] h m w = absurd (cc)
whites-enter u c color (i ∷ is) h m w = elim (Bool-cases (u == i)) [
  | inl same ↦
      let now = color_of-insert u i c color ∙ ap (λ b. if b then c else color_of i color) same in
      let was : color_of i color ≡ white =
        subst (λ z. color_of z color ≡ white) ((==_iff u i).0 same) w in
      let rest = whites-insert u c color is h in rw (now, h, was) (ground arith)
  | inr other ↦
      let now = color_of-insert u i c color ∙ ap (λ b. if b then c else color_of i color) other in
      let rest = whites-enter u c color is h (ground arith) w in rw now (ground arith)
]
