-- ===== src/Common/Lists.antt =====
-- Lists measured by native numbers, predicates over lists, and Boolean searches.
use Prim.Native.Nat.{ℕ, zero, suc, ◌+◌, ◌≤◌}
use mathlib.Core.Path.{◌≡◌, refl, subst}
use mathlib.Core.Logic.{inl, inr}
use mathlib.Core.Bool.{Bool, true, false, ◌&&◌, ◌||◌}
use mathlib.Core.Option.{Option, none, some}
use mathlib.Core.List.{List, [], ◌∷◌, ◌++◌, reverse, reverse-append}
use native.Mathlib.Omega.{arith}
use valyria.Common.Tests.{if◌then◌else◌, is_some, Bool-cases}

module _ {ℓ} {A : Type ℓ} where
  abbrev pub length : List A → ℕ
  length [] = 0
  length (x ∷ xs) = suc (length xs)

  abbrev pub take : ℕ → List A → List A
  take zero xs = []
  take (suc n) [] = []
  take (suc n) (x ∷ xs) = x ∷ take n xs

  abbrev pub drop : ℕ → List A → List A
  drop zero xs = xs
  drop (suc n) [] = []
  drop (suc n) (x ∷ xs) = drop n xs

  abbrev pub last? : List A → Option A
  last? [] = none
  last? (x ∷ []) = some x
  last? (x ∷ y ∷ ys) = last? (y ∷ ys)

  -- `iter().filter(p)`, `iter().any(p)`, `iter().all(p)`, `iter().find(p)` over a Boolean test.
  abbrev pub filterb : (A → Bool) → List A → List A
  filterb p [] = []
  filterb p (x ∷ xs) = let rest = filterb p xs in if p x then x ∷ rest else rest

  abbrev pub anyb : (A → Bool) → List A → Bool
  anyb p [] = false
  anyb p (x ∷ xs) = p x || anyb p xs

  abbrev pub allb : (A → Bool) → List A → Bool
  allb p [] = true
  allb p (x ∷ xs) = p x && allb p xs

  abbrev pub findb : (A → Bool) → List A → Option A
  findb p [] = none
  findb p (x ∷ xs) = if p x then some x else findb p xs

  -- The length of the longest prefix that passes: `take_while(p).count()`.
  abbrev pub prefix_run : (A → Bool) → List A → ℕ
  prefix_run p [] = 0
  prefix_run p (x ∷ xs) = let n = prefix_run p xs in if p x then suc n else 0

module _ {ℓ} {A : Type ℓ} where
  pub length-append : (xs ys : List A) → length (xs ++ ys) ≡ length xs + length ys
  length-append [] ys = omega arith
  length-append (x ∷ xs) ys = omega (arith, length-append xs ys)

  pub last?-append : (xs : List A) (a : A) → last? (xs ++ a ∷ []) ≡ some a
  last?-append [] a = refl
  last?-append (x ∷ []) a = refl
  last?-append (x ∷ y ∷ ys) a = last?-append (y ∷ ys) a

  pub length-filterb-le : (p : A → Bool) (xs : List A) → length (filterb p xs) ≤ length xs
  length-filterb-le p [] = omega arith
  length-filterb-le p (x ∷ xs) = ground (arith, length-filterb-le p xs)

  pub filterb-append :
      (p : A → Bool) (xs ys : List A) → filterb p (xs ++ ys) ≡ filterb p xs ++ filterb p ys
  filterb-append p [] ys = refl
  filterb-append p (x ∷ xs) ys = ground (arith, filterb-append p xs ys)

  pub findb-append :
      (p : A → Bool) (xs ys : List A)
      → findb p (xs ++ ys) ≡ (if is_some (findb p xs) then findb p xs else findb p ys)
  findb-append p [] ys = refl
  findb-append p (x ∷ xs) ys = ground (arith, findb-append p xs ys)

  pub findb_sound : (p : A → Bool) (xs : List A) (a : A) → findb p xs ≡ some a → p a ≡ true
  findb_sound p [] a h = cc
  findb_sound p (x ∷ xs) a h = ground (arith, findb_sound p xs a)

abbrev pub All {ℓ κ} : {A : Type ℓ} → (A → Type κ) → List A → Type κ
All P [] = Unit
All P (x ∷ xs) = P x × All P xs

pub All-append {ℓ κ} :
    {A : Type ℓ} (P : A → Type κ) (xs ys : List A) → All P xs → All P ys → All P (xs ++ ys)
All-append P [] ys hx hy = hy
All-append P (x ∷ xs) ys hx hy = (hx.0, All-append P xs ys hx.1 hy)

pub is_some-findb {ℓ} : {A : Type ℓ} (p : A → Bool) (xs : List A) → is_some (findb p xs) ≡ anyb p xs
is_some-findb p [] = refl
is_some-findb p (x ∷ xs) = ground (arith, is_some-findb p xs)

pub anyb-append {ℓ} :
    {A : Type ℓ} (p : A → Bool) (xs ys : List A) → anyb p (xs ++ ys) ≡ (anyb p xs || anyb p ys)
anyb-append p [] ys = refl
anyb-append p (x ∷ xs) ys = ground (arith, anyb-append p xs ys)

pub All-map {ℓ κ} :
    {A : Type ℓ} (P Q : A → Type κ) (xs : List A) → ((a : A) → P a → Q a) → All P xs → All Q xs
All-map P Q [] f h = tt
All-map P Q (x ∷ xs) f h = (f x h.0, All-map P Q xs f h.1)

pub All-findb {ℓ κ} :
    {A : Type ℓ} (P : A → Type κ) (p : A → Bool) (xs : List A) (a : A)
    → All P xs
    → findb p xs ≡ some a
    → P a
All-findb P p [] a h e = cc
All-findb P p (x ∷ xs) a h e = elim (Bool-cases (p x)) [
  | inl t ↦ let same : x ≡ a = ground arith in subst P same h.0
  | inr f ↦ All-findb P p xs a h.1 (rw f at e)
]

pub reverse-snoc {ℓ} : {A : Type ℓ} (xs : List A) (a : A) → reverse (xs ++ a ∷ []) ≡ a ∷ reverse xs
reverse-snoc xs a = reverse-append xs (a ∷ [])
