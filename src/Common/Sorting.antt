-- ===== src/Common/Sorting.antt =====
-- Stable sorting by a test, and the first least element: `sort_by` and `min_by`.
use mathlib.Core.Path.{◌≡◌, refl, subst, sym}
use mathlib.Core.Bool.{Bool, true, false, ◌||◌}
use mathlib.Core.Option.{Option, none, some}
use mathlib.Core.List.{List, [], ◌∷◌}
use native.Mathlib.Omega.{arith}
use mathlib.Core.Logic.{inl, inr}
use valyria.Common.Tests.{if◌then◌else◌, Bool-cases}
use valyria.Common.Lists.{All, anyb, filterb}

module _ {ℓ} {A : Type ℓ} (before : A → A → Bool) where
  -- `before x y` says that `y` comes strictly earlier than `x`: equal elements keep their order.
  abbrev pub place_by : A → List A → List A
  place_by x [] = x ∷ []
  place_by x (y ∷ ys) = let rest = place_by x ys in if before x y then y ∷ rest else x ∷ y ∷ ys

  abbrev pub sort_by : List A → List A
  sort_by [] = []
  sort_by (x ∷ xs) = place_by x (sort_by xs)

  -- The first of the least elements, where `before best x` says that `x` is strictly less.
  abbrev pub min_from : A → List A → A
  min_from best [] = best
  min_from best (x ∷ xs) = min_from (if before best x then x else best) xs

  abbrev pub min_by : List A → Option A
  min_by [] = none
  min_by (x ∷ xs) = some (min_from x xs)

module _ {ℓ κ} {A : Type ℓ} (P : A → Type κ) (before : A → A → Bool) where
  All-place_by : (x : A) (ys : List A) → P x → All P ys → All P (place_by before x ys)
  All-place_by x [] p h = (p, tt)
  All-place_by x (y ∷ ys) p h = elim (Bool-cases (before x y)) [
    | inl t ↦ rw t (h.0, All-place_by x ys p h.1)
    | inr f ↦ rw f (p, h)
  ]

  pub All-sort_by : (xs : List A) → All P xs → All P (sort_by before xs)
  All-sort_by [] h = tt
  All-sort_by (x ∷ xs) h = All-place_by x (sort_by before xs) h.0 (All-sort_by xs h.1)

  All-place_by_back : (x : A) (ys : List A) → All P (place_by before x ys) → P x × All P ys
  All-place_by_back x [] h = h
  All-place_by_back x (y ∷ ys) h = elim (Bool-cases (before x y)) [
    | inl t ↦
        let h' = subst (λ b. All P (if b then y ∷ place_by before x ys else x ∷ y ∷ ys)) t h in
        let rest = All-place_by_back x ys h'.1 in (rest.0, (h'.0, rest.1))
    | inr f ↦ subst (λ b. All P (if b then y ∷ place_by before x ys else x ∷ y ∷ ys)) f h
  ]

  pub All-sort_by_back : (xs : List A) → All P (sort_by before xs) → All P xs
  All-sort_by_back [] h = tt
  All-sort_by_back (x ∷ xs) h =
      let (here, rest) = All-place_by_back x (sort_by before xs) h in
      (here, All-sort_by_back xs rest)

module _ {ℓ} {A : Type ℓ} (p : A → Bool) (before : A → A → Bool) where
  anyb-place_by : (x : A) (ys : List A) → anyb p (place_by before x ys) ≡ (p x || anyb p ys)
  anyb-place_by x [] = refl
  anyb-place_by x (y ∷ ys) = ground (arith, anyb-place_by x ys)

  pub anyb-sort_by : (xs : List A) → anyb p (sort_by before xs) ≡ anyb p xs
  anyb-sort_by [] = refl
  anyb-sort_by (x ∷ xs) = ground (arith, anyb-place_by x (sort_by before xs), anyb-sort_by xs)

module _ {ℓ κ} {A : Type ℓ} (P : A → Type κ) where
  pub All-filterb :
      (p : A → Bool) (xs : List A) → All P xs → All (λ x. P x × (p x ≡ true)) (filterb p xs)
  All-filterb p [] h = tt
  All-filterb p (x ∷ xs) h = elim (Bool-cases (p x)) [
    | inl t ↦ rw t ((h.0, t), All-filterb p xs h.1)
    | inr f ↦ rw f (All-filterb p xs h.1)
  ]

  min_from_lem :
      (before : A → A → Bool) (best : A) (xs : List A)
      → P best
      → All P xs
      → P (min_from before best xs)
  min_from_lem before best [] p h = p
  min_from_lem before best (x ∷ xs) p h = elim (Bool-cases (before best x)) [
    | inl t ↦ rw t (min_from_lem before x xs h.0 h.1)
    | inr f ↦ rw f (min_from_lem before best xs p h.1)
  ]

  pub min_by_lem :
      (before : A → A → Bool) (xs : List A) (m : A) → All P xs → min_by before xs ≡ some m → P m
  min_by_lem before [] m h e = cc
  min_by_lem before (x ∷ xs) m h e =
      let same : min_from before x xs ≡ m = cc in subst P same (min_from_lem before x xs h.0 h.1)

-- The element that `min_by` picks is least, for the strict part of a total preorder.
module _ {ℓ} {A : Type ℓ} (before : A → A → Bool)
    (trans : (a b c : A) → before a b ≡ false → before b c ≡ false → before a c ≡ false)
    (asym : (a b : A) → before a b ≡ true → before b a ≡ false) where
  abbrev Least : A → A → List A → Type 0
  Least m x xs = (before m x ≡ false) × All (λ y. before m y ≡ false) xs

  min_from-Least : (best : A) (xs : List A) → Least (min_from before best xs) best xs
  min_from-Least best [] = (refl_false best, tt)
    where
      refl_false : (a : A) → before a a ≡ false
      refl_false a = elim (Bool-cases (before a a)) [ inl t ↦ asym a a t | inr f ↦ f ]
  min_from-Least best (x ∷ xs) = elim (Bool-cases (before best x)) [
    | inl t ↦
        let h = min_from-Least x xs in
        subst (λ b. Least (min_from before (if b then x else best) xs) best (x ∷ xs)) (sym t)
          (trans _ x best h.0 (asym best x t), (h.0, h.1))
    | inr f ↦
        let h = min_from-Least best xs in
        subst (λ b. Least (min_from before (if b then x else best) xs) best (x ∷ xs)) (sym f)
          (h.0, (trans _ best x h.0 f, h.1))
  ]

  pub min_by_least :
      (xs : List A) (m : A) → min_by before xs ≡ some m → All (λ x. before m x ≡ false) xs
  min_by_least [] m e = tt
  min_by_least (x ∷ xs) m e =
      let same : min_from before x xs ≡ m = cc in
      subst (λ k. All (λ y. before k y ≡ false) (x ∷ xs)) same (min_from-Least x xs)
