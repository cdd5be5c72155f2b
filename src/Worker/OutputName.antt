-- ===== src/Worker/OutputName.antt =====
-- `_safe_output_name`.
use Prim.Native.Char.{Char, code}
use Prim.Native.String.{String}
use pdx_artifact_engine.Prelude.{
  ℕ, zero, suc, ◌≤◌, Bool, false, ◌||◌, if◌then◌else◌, ◌==◌, ==_iff, nat_eq, string_eq, ◌≡◌, ◌≢◌,
  refl, sym, ap, ◌∙◌, subst, ◌<◌, arith, inl, inr, Bool-cases,
}

-- a slash of either kind
abbrev pub is_slash : Char → Bool
is_slash c = code c == b'/' || code c == 92

-- the text after the last slash: `name.replace("\\", "/").split("/")[-1]`
abbrev pub has_slash : String → Bool
has_slash String.[] = false
has_slash (String.◌∷◌ c s) = is_slash c || has_slash s

abbrev pub base_name : String → String
base_name String.[] = String.[]
base_name (String.◌∷◌ c s) = if has_slash (String.◌∷◌ c s) then base_name s else String.◌∷◌ c s

-- `base[:n]`
abbrev pub first_chars : ℕ → String → String
first_chars n String.[] = String.[]
first_chars zero (String.◌∷◌ c s) = String.[]
first_chars (suc n) (String.◌∷◌ c s) = String.◌∷◌ c (first_chars n s)

unfoldable pub safe_output_name : String → String
safe_output_name name =
    let base = base_name name in
    if base == "" || (base == "." || base == "..") then "render.bin" else first_chars 127 base

abbrev pub chars : String → ℕ
chars String.[] = 0
chars (String.◌∷◌ c s) = suc (chars s)

-- A text that names a file in a directory.
pub record IsFileName (name : String) : Type 0 where
  pub no_slash : has_slash name ≡ false
  pub not_empty : name ≢ ""
  pub not_here : name ≢ "."
  pub not_parent : name ≢ ".."
  pub short : chars name ≤ 127

base_name-no_slash : (name : String) → has_slash (base_name name) ≡ false
base_name-no_slash String.[] = refl
base_name-no_slash (String.◌∷◌ c s) = ground (arith, base_name-no_slash s)

first_chars-no_slash :
    (n : ℕ) (s : String) → has_slash s ≡ false → has_slash (first_chars n s) ≡ false
first_chars-no_slash n String.[] h = refl
first_chars-no_slash zero (String.◌∷◌ c s) h = refl
first_chars-no_slash (suc n) (String.◌∷◌ c s) h = ground (arith, first_chars-no_slash n s)

chars-first_chars : (n : ℕ) (s : String) → chars (first_chars n s) ≤ n
chars-first_chars n String.[] = ground arith
chars-first_chars zero (String.◌∷◌ c s) = ground arith
chars-first_chars (suc n) (String.◌∷◌ c s) = ground (arith, chars-first_chars n s)

-- A prefix of fewer characters than allowed is the whole text.
first_chars-whole : (n : ℕ) (s : String) → chars (first_chars n s) < n → first_chars n s ≡ s
first_chars-whole n String.[] h = refl
first_chars-whole zero (String.◌∷◌ c s) h = absurd (ground arith)
first_chars-whole (suc n) (String.◌∷◌ c s) h =
    ap (String.◌∷◌ c) (first_chars-whole n s (ground arith))

-- A prefix that is a short text is the whole text.
short_prefix : (s t : String) → chars t < 127 → first_chars 127 s ≡ t → s ≡ t
short_prefix s t h e =
    sym (first_chars-whole 127 s (subst (λ x. x < 127) (ap chars (sym e)) (h))) ∙ e

-- the prefix of a name that is none of three short texts
IsFileName-prefix :
    (base : String)
    → has_slash base ≡ false
    → base ≢ ""
    → base ≢ "."
    → base ≢ ".."
    → IsFileName (first_chars 127 base)
IsFileName-prefix base no_slash not_empty not_here not_parent = record {
  no_slash = first_chars-no_slash 127 base no_slash;
  not_empty = λ e. not_empty (short_prefix base "" (ground arith) e);
  not_here = λ e. not_here (short_prefix base "." (ground arith) e);
  not_parent = λ e. not_parent (short_prefix base ".." (ground arith) e);
  short = chars-first_chars 127 base;
}

render_bin : IsFileName "render.bin"
render_bin = record {
  no_slash = refl;
  not_empty = λ e. absurd (cc);
  not_here = λ e. absurd (cc);
  not_parent = λ e. absurd (cc);
  short = ground arith;
}

-- Whatever the text, the file name made of it has no slash of either kind, is not empty, is neither
-- `.` nor `..`, and has at most 127 characters.
pub safe_output_name-IsFileName : (name : String) → IsFileName (safe_output_name name)
unfolding safe_output_name
safe_output_name-IsFileName name = by_name (base_name name) (base_name-no_slash name)
  where
    by_name :
        (base : String)
        → has_slash base ≡ false
        → IsFileName (
            if base == "" || (base == "." || base == "..")
            then "render.bin"
            else first_chars 127 base)
    by_name base no_slash = elim (Bool-cases (base == "" || (base == "." || base == ".."))) [
      | inl special ↦
          subst (λ b. IsFileName (if b then "render.bin" else first_chars 127 base)) (sym special)
            render_bin
      | inr other ↦
          subst (λ b. IsFileName (if b then "render.bin" else first_chars 127 base)) (sym other)
            (IsFileName-prefix base no_slash (λ e. ground (arith, ==_iff base ""))
              (λ e. ground (arith, ==_iff base ".")) (λ e. ground (arith, ==_iff base "..")))
    ]
