-- ===== src/Common/Lookup.antt =====
-- Membership by a Boolean test, and dictionaries as association lists, over any type with `Eq`.
use mathlib.Core.Path.{◌≡◌, refl}
use mathlib.Core.Bool.{Bool, false, ◌||◌}
use mathlib.Core.Option.{Option, none, some}
use mathlib.Core.List.{List, [], ◌∷◌, ◌++◌}
use native.Mathlib.Omega.{arith}
use valyria.Common.Tests.{if◌then◌else◌}
use valyria.Common.Equality.{PartialEq, ◌==◌}
use valyria.Common.Lists.{filterb}

module _ {ℓ} {K : Type ℓ} ⦃e : PartialEq K⦄ where
  abbrev pub contains : List K → K → Bool
  contains [] k = false
  contains (x ∷ xs) k = x == k || contains xs k

  pub contains-append :
      (xs ys : List K) (k : K) → contains (xs ++ ys) k ≡ (contains xs k || contains ys k)
  contains-append [] ys k = refl
  contains-append (x ∷ xs) ys k = ground (arith, contains-append xs ys k)

  pub contains-filterb :
      (p : K → Bool) (xs : List K) (k : K)
      → contains (filterb p xs) k ≡ (if p k then contains xs k else false)
  contains-filterb p [] k = ground arith
  contains-filterb p (x ∷ xs) k = ground (arith, contains-filterb p xs k, e.eq_iff x k)

-- `HashMap<K, V>`: the first entry of a key counts, `insert` replaces, `remove` drops.
module _ {ℓ κ} {K : Type ℓ} {V : Type κ} ⦃e : PartialEq K⦄ where
  abbrev pub lookup : K → List (K × V) → Option V
  lookup k [] = none
  lookup k ((j, v) ∷ m) = if j == k then some v else lookup k m

  abbrev pub remove : K → List (K × V) → List (K × V)
  remove k [] = []
  remove k ((j, v) ∷ m) = let rest = remove k m in if j == k then rest else (j, v) ∷ rest

  abbrev pub insert : K → V → List (K × V) → List (K × V)
  insert k v m = (k, v) ∷ remove k m

  pub lookup-remove :
      (k j : K) (m : List (K × V)) → lookup j (remove k m) ≡ (if k == j then none else lookup j m)
  lookup-remove k j [] = ground arith
  lookup-remove k j ((i, v) ∷ m) =
      ground (arith, lookup-remove k j m, e.eq_iff i k, e.eq_iff i j, e.eq_iff k j)

  pub lookup-insert :
      (k j : K) (v : V) (m : List (K × V))
      → lookup j (insert k v m) ≡ (if k == j then some v else lookup j m)
  lookup-insert k j v m = ground (arith, lookup-remove k j m)
