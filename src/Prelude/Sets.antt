-- ===== src/Prelude/Sets.antt =====
-- Sets that a loop fills, and duplicates in a list.
use Prim.Native.Nat.{ℕ, suc, ◌≤◌}
use mathlib.Core.Path.{◌≡◌, refl, ap, sym, ◌∙◌}
use mathlib.Core.Logic.{◌↔◌, inl, inr}
use mathlib.Core.Bool.{Bool, true, false, ◌&&◌, not}
use mathlib.Core.List.{List, [], ◌∷◌, ◌++◌}
use native.Mathlib.Omega.{arith}
use pdx_artifact_engine.Prelude.Tests.{ltb, if◌then◌else◌, Bool-cases}
use pdx_artifact_engine.Prelude.Equality.{Eq, ◌==◌, ==_iff, ==_refl}
use pdx_artifact_engine.Prelude.Lists.{select, all, elem, unique, elem-append}

module _ {ℓ} {A : Type ℓ} ⦃e : Eq A⦄ where
  -- No element of `xs` stands in `seen` or earlier in `xs`: the test of a loop that adds to a set.
  abbrev pub fresh_from : List A → List A → Bool
  fresh_from seen [] = true
  fresh_from seen (x ∷ xs) = not (elem x seen) && fresh_from (seen ++ x ∷ []) xs

  all_fresh-snoc :
      (y : A) (seen xs : List A)
      → all (λ x. not (elem x (seen ++ y ∷ []))) xs
        ≡ (all (λ x. not (elem x seen)) xs && not (elem y xs))
  all_fresh-snoc y seen [] = refl
  all_fresh-snoc y seen (x ∷ xs) =
      ground (arith, elem-append x seen (y ∷ []), ==_iff x y, ==_iff y x, all_fresh-snoc y seen xs)

  fresh_from-eq :
      (seen xs : List A) → fresh_from seen xs ≡ (all (λ x. not (elem x seen)) xs && unique xs)
  fresh_from-eq seen [] = refl
  fresh_from-eq seen (x ∷ xs) =
      ground (arith, fresh_from-eq (seen ++ x ∷ []) xs, all_fresh-snoc x seen xs)

  all_fresh-nil : (xs : List A) → all (λ x. not (elem x [])) xs ≡ true
  all_fresh-nil [] = refl
  all_fresh-nil (x ∷ xs) = all_fresh-nil xs

  pub fresh_from-nil : (xs : List A) → fresh_from [] xs ≡ unique xs
  fresh_from-nil xs = ground (arith, fresh_from-eq [] xs, all_fresh-nil xs)

  -- `sum(1 for x in xs if x == a)`, that is `xs.count(a)`
  abbrev pub count : A → List A → ℕ
  count a [] = 0
  count a (x ∷ xs) = if a == x then suc (count a xs) else count a xs

  -- The elements of a set display, each once.
  abbrev pub distinct : List A → List A
  distinct [] = []
  distinct (x ∷ xs) = if elem x xs then distinct xs else x ∷ distinct xs

  elem-distinct : (a : A) (xs : List A) → elem a (distinct xs) ≡ elem a xs
  elem-distinct a [] = refl
  elem-distinct a (x ∷ xs) = elim (Bool-cases (a == x)) [
    | inl same ↦ ground (arith, ap (λ z. elem z xs) ((==_iff a x).0 same), elem-distinct a xs)
    | inr other ↦ ground (arith, elem-distinct a xs)
  ]

  pub distinct-eq-nil : (xs : List A) → distinct xs ≡ [] → xs ≡ []
  distinct-eq-nil [] h = refl
  distinct-eq-nil (x ∷ xs) h = absurd (cc (ap (elem x) h, elem-distinct x (x ∷ xs), elem_head x xs))
    where
      elem_head : (y : A) (ys : List A) → elem y (y ∷ ys) ≡ true
      elem_head y ys = rw (==_refl y)

  count-elem : (a : A) (xs : List A) → ltb 0 (count a xs) ≡ elem a xs
  count-elem a [] = refl
  count-elem a (x ∷ xs) = ground (arith, count-elem a xs)

  -- `[x for x in ys if xs.count(x) > 1]` is empty
  abbrev single_in : List A → List A → Bool
  single_in xs ys = all (λ y. not (ltb 1 (count y xs))) ys

  single_in-cons :
      (x : A) (xs ys : List A) → elem x ys ≡ false → single_in (x ∷ xs) ys ≡ single_in xs ys
  single_in-cons x xs [] h = refl
  single_in-cons x xs (y ∷ ys) h = ground (arith, ==_iff x y, ==_iff y x, single_in-cons x xs ys)

  count-cons-le : (x y : A) (xs : List A) → count y xs ≤ count y (x ∷ xs)
  count-cons-le x y xs = ground arith

  single_in_twice :
      (x : A) (xs ys : List A) → elem x xs ≡ true → elem x ys ≡ true → single_in (x ∷ xs) ys ≡ false
  single_in_twice x xs [] h m = absurd (cc)
  single_in_twice x xs (y ∷ ys) h m = elim (Bool-cases (x == y)) [
    | inl same ↦ ground (
      arith,
      (==_iff x y).0 same,
      ap (λ z. count z (x ∷ xs)) ((==_iff x y).0 same),
      ==_refl x,
      count-elem x xs,
    )
    | inr other ↦ ground (arith, single_in_twice x xs ys)
  ]

  single_in-unique : (xs : List A) → single_in xs xs ≡ unique xs
  single_in-unique [] = refl
  single_in-unique (x ∷ xs) = elim (Bool-cases (elem x xs)) [
    | inl twice ↦ ground (arith, single_in_twice x xs xs, ==_refl x, count-elem x xs)
    | inr once ↦
        ground (arith, single_in-cons x xs xs once, single_in-unique xs, ==_refl x, count-elem x xs)
  ]

  select_none_iff :
      (p : A → Bool) (xs : List A) → (select p xs ≡ []) ↔ (all (λ x. not (p x)) xs ≡ true)
  select_none_iff p [] = ground arith
  select_none_iff p (x ∷ xs) = ground (arith, select_none_iff p xs)

  -- `{x for x in xs if xs.count(x) > 1}`
  abbrev pub duplicates : List A → List A
  duplicates xs = distinct (select (λ x. ltb 1 (count x xs)) xs)

  -- There are no duplicates exactly where no element occurs twice.
  pub duplicates-eq-nil_iff : (xs : List A) → (duplicates xs ≡ []) ↔ (unique xs ≡ true)
  duplicates-eq-nil_iff xs =
      let none = select_none_iff (λ x. ltb 1 (count x xs)) xs in
      (
        λ h. sym (single_in-unique xs) ∙ none.0 (distinct-eq-nil _ h),
        λ h. rw (none.1 (single_in-unique xs ∙ h)) refl,
      )
