-- ===== src/Prelude/Lists.antt =====
-- Lists measured by native numbers, and membership tests over `==`.
use Prim.Native.Nat.{ℕ, suc, ◌+◌}
use mathlib.Core.Path.{◌≡◌, refl, ap}
use mathlib.Core.Logic.{◌↔◌, inl, inr}
use mathlib.Core.Bool.{Bool, true, false, ◌&&◌, ◌||◌, not}
use mathlib.Core.List.{List, [], ◌∷◌, ◌++◌}
use native.Mathlib.Omega.{arith}
use pdx_artifact_engine.Prelude.Tests.{if◌then◌else◌, Bool-cases}
use pdx_artifact_engine.Prelude.Equality.{Eq, ◌==◌, ==_iff}

module _ {ℓ} {A : Type ℓ} where
  abbrev pub length : List A → ℕ
  length [] = 0
  length (x ∷ xs) = suc (length xs)

  pub length-append : (xs ys : List A) → length (xs ++ ys) ≡ length xs + length ys
  length-append [] ys = omega arith
  length-append (x ∷ xs) ys = omega (arith, length-append xs ys)

  -- `[x for x in xs if p(x)]`
  abbrev pub select : (A → Bool) → List A → List A
  select p [] = []
  select p (x ∷ xs) = if p x then x ∷ select p xs else select p xs

  -- `all(p(x) for x in xs)`
  abbrev pub all : (A → Bool) → List A → Bool
  all p [] = true
  all p (x ∷ xs) = p x && all p xs

  pub all-append : (p : A → Bool) (xs ys : List A) → all p (xs ++ ys) ≡ (all p xs && all p ys)
  all-append p [] ys = refl
  all-append p (x ∷ xs) ys = ground (arith, all-append p xs ys)

  -- `any(p(x) for x in xs)`
  abbrev pub any : (A → Bool) → List A → Bool
  any p [] = false
  any p (x ∷ xs) = p x || any p xs

  pub any-append : (p : A → Bool) (xs ys : List A) → any p (xs ++ ys) ≡ (any p xs || any p ys)
  any-append p [] ys = refl
  any-append p (x ∷ xs) ys = ground (arith, any-append p xs ys)

  -- `if b: errors.append(a)`
  abbrev pub when : Bool → A → List A
  when b a = if b then a ∷ [] else []

  abbrev pub is_empty : List A → Bool
  is_empty [] = true
  is_empty (x ∷ xs) = false

  pub is_empty_iff : (xs : List A) → (is_empty xs ≡ true) ↔ (xs ≡ [])
  is_empty_iff [] = ground arith
  is_empty_iff (x ∷ xs) = ground arith

  pub append-eq-nil_iff : (xs ys : List A) → ((xs ++ ys) ≡ []) ↔ ((xs ≡ []) × (ys ≡ []))
  append-eq-nil_iff [] ys = (λ h. (refl, h), λ h. h.1)
  append-eq-nil_iff (x ∷ xs) ys = (λ h. absurd (cc), λ h. absurd (cc (h.0)))

  pub append-cons : (xs : List A) (y : A) (ys : List A) → (xs ++ y ∷ []) ++ ys ≡ xs ++ y ∷ ys
  append-cons [] y ys = refl
  append-cons (x ∷ xs) y ys = ap (◌∷◌ x) (append-cons xs y ys)

module _ {ℓ} {A : Type ℓ} ⦃e : Eq A⦄ where
  -- `a in xs`
  abbrev pub elem : A → List A → Bool
  elem a [] = false
  elem a (x ∷ xs) = (a == x) || elem a xs

  -- `set(xs) <= set(ys)`
  abbrev pub subset : List A → List A → Bool
  subset xs ys = all (λ x. elem x ys) xs

  -- `set(xs) & set(ys)`, as a test
  abbrev pub overlaps : List A → List A → Bool
  overlaps xs ys = any (λ x. elem x ys) xs

  -- `len(xs) == len(set(xs))`
  abbrev pub unique : List A → Bool
  unique [] = true
  unique (x ∷ xs) = not (elem x xs) && unique xs

  pub elem-append : (a : A) (xs ys : List A) → elem a (xs ++ ys) ≡ (elem a xs || elem a ys)
  elem-append a [] ys = refl
  elem-append a (x ∷ xs) ys = ground (arith, elem-append a xs ys)

  pub elem-select : (p : A → Bool) (a : A) (xs : List A) → elem a (select p xs) ≡ (p a && elem a xs)
  elem-select p a [] = ground arith
  elem-select p a (x ∷ xs) = elim (Bool-cases (a == x)) [
    | inl same ↦ ground (arith, ap p ((==_iff a x).0 same), elem-select p a xs)
    | inr other ↦ ground (arith, elem-select p a xs)
  ]

  pub subset-elem :
      (xs ys : List A) (a : A) → subset xs ys ≡ true → elem a xs ≡ true → elem a ys ≡ true
  subset-elem [] ys a s m = absurd (cc)
  subset-elem (x ∷ xs) ys a s m = elim (Bool-cases (a == x)) [
    | inl same ↦ ground (arith, ap (λ z. elem z ys) ((==_iff a x).0 same))
    | inr other ↦ ground (arith, subset-elem xs ys a)
  ]

  pub not-overlaps-elem :
      (xs ys : List A) (a : A) → overlaps xs ys ≡ false → elem a xs ≡ true → elem a ys ≡ false
  not-overlaps-elem [] ys a s m = absurd (cc)
  not-overlaps-elem (x ∷ xs) ys a s m = elim (Bool-cases (a == x)) [
    | inl same ↦ ground (arith, ap (λ z. elem z ys) ((==_iff a x).0 same))
    | inr other ↦ ground (arith, not-overlaps-elem xs ys a)
  ]
