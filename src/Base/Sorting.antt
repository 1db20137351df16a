-- ===== src/Base/Sorting.antt =====
-- Python's `sorted` and `list.sort`, stable, by the test that puts one key before another.
use mathlib.Core.Path.{◌≡◌, refl, subst}
use mathlib.Core.Logic.{◌≢◌, inl, inr}
use mathlib.Core.Bool.{Bool, true, false}
use mathlib.Core.Option.{Option, none, some}
use mathlib.Core.List.{List, [], ◌∷◌}
use native.Mathlib.Omega.{arith}
use gpuopt.Base.Tests.{if◌then◌else◌, Bool-cases}
use gpuopt.Base.Lists.{All, count}

module _ {ℓ} {A : Type ℓ} (before : A → A → Bool) where
  -- The element stood in front of the list, so equal ones stay behind it.
  unfoldable pub insert_sorted : A → List A → List A
  insert_sorted x [] = x ∷ []
  insert_sorted x (y ∷ ys) =
      let rest = insert_sorted x ys in if before y x then y ∷ rest else x ∷ y ∷ ys

  unfoldable pub sorted : List A → List A
  unfolding insert_sorted
  sorted [] = []
  sorted (x ∷ xs) = insert_sorted x (sorted xs)

  insert_sorted-count :
      (p : A → Bool) (x : A) (xs : List A) → count p (insert_sorted x xs) ≡ count p (x ∷ xs)
  unfolding insert_sorted
  insert_sorted-count p x [] = refl
  insert_sorted-count p x (y ∷ ys) = ground (arith, insert_sorted-count p x ys)

  pub sorted-count : (p : A → Bool) (xs : List A) → count p (sorted xs) ≡ count p xs
  unfolding sorted
  sorted-count p [] = refl
  sorted-count p (x ∷ xs) = ground (arith, insert_sorted-count p x (sorted xs), sorted-count p xs)

  -- A property of every element, before and after.
  insert_sorted-All {κ} :
      (P : A → Type κ) (x : A) (xs : List A) → P x → All P xs → All P (insert_sorted x xs)
  unfolding insert_sorted
  insert_sorted-All P x [] h all = (h, tt)
  insert_sorted-All P x (y ∷ ys) h (at, all) = elim (Bool-cases (before y x)) [
    | inl e ↦ rw (e, insert_sorted) (at, insert_sorted-All P x ys h all)
    | inr e ↦ rw (e, insert_sorted) (h, (at, all))
  ]

  pub sorted-All {κ} : (P : A → Type κ) (xs : List A) → All P xs → All P (sorted xs)
  unfolding sorted
  sorted-All P [] all = tt
  sorted-All P (x ∷ xs) (h, all) = insert_sorted-All P x (sorted xs) h (sorted-All P xs all)

  All-insert_sorted {κ} :
      (P : A → Type κ) (x : A) (xs : List A) → All P (insert_sorted x xs) → P x × All P xs
  unfolding insert_sorted
  All-insert_sorted P x [] all = all
  All-insert_sorted P x (y ∷ ys) all = elim (Bool-cases (before y x)) [
    | inl e ↦
        let q : insert_sorted x (y ∷ ys) ≡ y ∷ insert_sorted x ys = rw (e, insert_sorted) refl in
        let (at, rest) = subst (λ l. All P l) q all in
        let (h, tail) = All-insert_sorted P x ys rest in (h, (at, tail))
    | inr e ↦
        let q : insert_sorted x (y ∷ ys) ≡ x ∷ y ∷ ys = rw (e, insert_sorted) refl in
        subst (λ l. All P l) q all
  ]

  pub All-sorted {κ} : (P : A → Type κ) (xs : List A) → All P (sorted xs) → All P xs
  unfolding sorted
  All-sorted P [] all = tt
  All-sorted P (x ∷ xs) all =
      let (h, rest) = All-insert_sorted P x (sorted xs) all in (h, All-sorted P xs rest)

-- `xs[0] if xs else None`
abbrev pub first {ℓ} : {A : Type ℓ} → List A → Option A
first [] = none
first (x ∷ xs) = some x

pub first-All {ℓ κ} :
    {A : Type ℓ} (P : A → Type κ) (xs : List A) (x : A) → All P xs → first xs ≡ some x → P x
first-All P [] x all h = absurd cc
first-All P (y ∷ ys) x (at, all) h = let e : y ≡ x = cc in subst (λ z. P z) e at

-- A test that orders: nothing precedes what it follows, and "not before" is transitive.
pub record IsOrder {ℓ} {A : Type ℓ} (before : A → A → Bool) : Type ℓ where
  pub asym : (a b : A) → before a b ≡ true → before b a ≡ false
  pub trans : (a b c : A) → before b a ≡ false → before c b ≡ false → before c a ≡ false

module _ {ℓ} {A : Type ℓ} (before : A → A → Bool) (o : IsOrder before) where
  irrefl_if : (a : A) (b : Bool) → before a a ≡ b → before a a ≡ false
  irrefl_if a true e = o.asym a a e
  irrefl_if a false e = e

  irrefl : (a : A) → before a a ≡ false
  irrefl a = irrefl_if a (before a a) refl

  -- Nothing of the list comes before the element.
  abbrev pub IsFirst : A → List A → Type 0
  IsFirst x xs = All (λ y. before y x ≡ false) xs

  IsFirst-below : (x y : A) (xs : List A) → before y x ≡ false → IsFirst y xs → IsFirst x xs
  IsFirst-below x y [] h all = tt
  IsFirst-below x y (z ∷ zs) h (at, all) = (o.trans x y z h at, IsFirst-below x y zs h all)

  first_inserted :
      (x y : A) (xs ys : List A)
      → ((z : A) → first ys ≡ some z → IsFirst z xs)
      → (first ys ≡ none → xs ≡ [])
      → first (insert_sorted before x ys) ≡ some y
      → IsFirst y (x ∷ xs)
  unfolding insert_sorted
  first_inserted x y xs [] least empty h =
      let e : x ≡ y = cc in rw (empty refl) (subst (λ z. IsFirst z (x ∷ [])) e (irrefl x, tt))
  first_inserted x y xs (z ∷ zs) least empty h = elim (Bool-cases (before z x)) [
    | inl lt ↦
        let e : z ≡ y = ground (arith, lt, h) in
        subst (λ w. IsFirst w (x ∷ xs)) e (o.asym z x lt, least z refl)
    | inr ge ↦
        let e : x ≡ y = ground (arith, ge, h) in
        subst (λ w. IsFirst w (x ∷ xs)) e (irrefl x, IsFirst-below x z xs ge (least z refl))
  ]

  inserted_some : (x : A) (ys : List A) → first (insert_sorted before x ys) ≢ none
  unfolding insert_sorted
  inserted_some x [] h = cc
  inserted_some x (z ∷ zs) h = ground (arith, h)

  pub sorted-empty : (xs : List A) → first (sorted before xs) ≡ none → xs ≡ []
  unfolding sorted insert_sorted
  sorted-empty [] h = refl
  sorted-empty (x ∷ xs) h = absurd (inserted_some x (sorted before xs) h)

  pub sorted-IsFirst : (xs : List A) (y : A) → first (sorted before xs) ≡ some y → IsFirst y xs
  unfolding sorted
  sorted-IsFirst [] y h = tt
  sorted-IsFirst (x ∷ xs) y h =
      first_inserted x y xs (sorted before xs) (sorted-IsFirst xs) (sorted-empty xs) h
