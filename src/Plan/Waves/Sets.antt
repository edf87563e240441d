-- ===== src/Plan/Waves/Sets.antt =====
-- Membership in the lists that stand for sets in `topological_waves` of
-- crates/valyria-plan/src/validate.rs.
use valyria.Common.{
  ◌≤◌, ◌<◌, true, not, ◌&&◌, ◌||◌, List, [], ◌∷◌, string_eq, ◌==◌, filterb, contains, lookup,
  insert, length, ◌≡◌, refl, arith, contains-filterb, lookup-insert, ==_iff, is_some,
  length-filterb-le,
}
use valyria.Plan.Model.{PlanStepId, PlanStep, Plan, step_ids}
use valyria.Plan.Waves.{Adjacency, insert_all, keys, skip_equal, dedup, wave_of, remove_all}

contains-skip_equal :
    (x : PlanStepId) (xs : List PlanStepId) (k : PlanStepId)
    → contains (skip_equal x xs) k ≡ (x == k || contains xs k)
contains-skip_equal x [] k = refl
contains-skip_equal x (y ∷ ys) k = ground (arith, contains-skip_equal y ys k, ==_iff x y)

contains-dedup : (xs : List PlanStepId) (k : PlanStepId) → contains (dedup xs) k ≡ contains xs k
contains-dedup [] k = refl
contains-dedup (x ∷ xs) k = contains-skip_equal x xs k

pub contains-wave_of :
    (plan : Plan) (chosen : List PlanStepId) (k : PlanStepId)
    → contains (wave_of plan chosen) k ≡ (contains chosen k && contains (step_ids plan.steps) k)
contains-wave_of plan chosen k =
    let ids = step_ids plan.steps in
    ground (
      arith,
      contains-dedup (filterb (contains chosen) ids) k,
      contains-filterb (contains chosen) ids k,
    )

pub contains-remove_all :
    (ids remaining : List PlanStepId) (k : PlanStepId)
    → contains (remove_all ids remaining) k ≡ (contains remaining k && not (contains ids k))
contains-remove_all [] remaining k = ground arith
contains-remove_all (id ∷ ids) remaining k =
    let rest = filterb (λ x. not (x == id)) remaining in
    ground (
      arith,
      contains-remove_all ids rest k,
      contains-filterb (λ x. not (x == id)) remaining k,
      ==_iff k id,
      ==_iff id k,
    )

length-remove_all-le :
    (ids remaining : List PlanStepId) → length (remove_all ids remaining) ≤ length remaining
length-remove_all-le [] remaining = omega arith
length-remove_all-le (id ∷ ids) remaining = omega (
  arith,
  length-remove_all-le ids (filterb (λ x. not (x == id)) remaining),
  length-filterb-le (λ x. not (x == id)) remaining,
)

length-filterb-lt :
    (id : PlanStepId) (xs : List PlanStepId)
    → contains xs id ≡ true
    → length (filterb (λ x. not (x == id)) xs) < length xs
length-filterb-lt id [] h = cc
length-filterb-lt id (x ∷ xs) h =
    ground (arith, length-filterb-lt id xs, length-filterb-le (λ y. not (y == id)) xs)

-- A wave that is not empty makes the set of what remains smaller.
pub length-remove_all-lt :
    (id : PlanStepId) (ids remaining : List PlanStepId)
    → contains remaining id ≡ true
    → length (remove_all (id ∷ ids) remaining) < length remaining
length-remove_all-lt id ids remaining h = omega (
  arith,
  length-remove_all-le ids (filterb (λ x. not (x == id)) remaining),
  length-filterb-lt id remaining h,
)

pub contains-keys :
    (adj : Adjacency) (k : PlanStepId) → contains (keys adj) k ≡ is_some (lookup k adj)
contains-keys [] k = refl
contains-keys ((id, deps) ∷ adj) k = ground (arith, contains-keys adj k)

-- Every step has its entry, and nothing else has one.
pub is_some-lookup :
    (ids : List PlanStepId) (steps : List PlanStep) (adj : Adjacency) (k : PlanStepId)
    → is_some (lookup k (insert_all ids steps adj))
      ≡ (contains (step_ids steps) k || is_some (lookup k adj))
is_some-lookup ids [] adj k = refl
is_some-lookup ids (s ∷ ss) adj k =
    let deps = filterb (contains ids) s.depends_on in
    ground (arith, is_some-lookup ids ss (insert s.id deps adj) k, lookup-insert s.id k deps adj)
