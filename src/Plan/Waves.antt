-- ===== src/Plan/Waves.antt =====
-- Dependency waves: `adjacency` and `topological_waves` of crates/valyria-plan/src/validate.rs. The
-- `BTreeMap` is an association list and the `BTreeSet` a list, since only lookups and membership
-- are observed. The loop runs on fuel, as many rounds as there are ids; a round places at least one.
pub mod Sets
pub mod Order
pub mod Progress
pub mod Cycles
use valyria.Common.{
  ℕ, zero, suc, Bool, true, false, not, Option, none, some, List, [], ◌∷◌, map, string_eq, ◌==◌,
  filterb, allb, contains, lookup, insert, if◌then◌else◌, length,
}
use valyria.Plan.Model.{PlanStepId, PlanStep, Plan, step_ids}

abbrev pub Adjacency : Type 0
Adjacency = List (PlanStepId × List PlanStepId)

abbrev pub insert_all : List PlanStepId → List PlanStep → Adjacency → Adjacency
insert_all ids [] adj = adj
insert_all ids (s ∷ ss) adj =
    insert_all ids ss (insert s.id (filterb (contains ids) s.depends_on) adj)

unfoldable pub adjacency : Plan → Adjacency
adjacency plan = insert_all (step_ids plan.steps) plan.steps []

abbrev pub keys : Adjacency → List PlanStepId
keys [] = []
keys ((id, deps) ∷ adj) = id ∷ keys adj

-- All dependencies are already placed.
abbrev pub is_free : List PlanStepId → Option (List PlanStepId) → Bool
is_free remaining none = true
is_free remaining (some deps) = allb (λ d. not (contains remaining d)) deps

abbrev pub ready : Adjacency → List PlanStepId → List PlanStepId
ready adj remaining = filterb (λ id. is_free remaining (lookup id adj)) remaining

-- `Vec::dedup`: of consecutive equal elements the first stays.
abbrev pub skip_equal : PlanStepId → List PlanStepId → List PlanStepId
skip_equal x [] = x ∷ []
skip_equal x (y ∷ ys) = let rest = skip_equal y ys in if x == y then rest else x ∷ rest

abbrev pub dedup : List PlanStepId → List PlanStepId
dedup [] = []
dedup (x ∷ xs) = skip_equal x xs

abbrev pub wave_of : Plan → List PlanStepId → List PlanStepId
wave_of plan chosen = dedup (filterb (contains chosen) (step_ids plan.steps))

abbrev pub remove_all : List PlanStepId → List PlanStepId → List PlanStepId
remove_all [] remaining = remaining
remove_all (id ∷ ids) remaining = remove_all ids (filterb (λ x. not (x == id)) remaining)

abbrev pub cons_wave :
    List PlanStepId → Option (List (List PlanStepId)) → Option (List (List PlanStepId))
cons_wave wave none = none
cons_wave wave (some waves) = some (wave ∷ waves)

abbrev pub place :
    Plan
    → List PlanStepId
    → List PlanStepId
    → (List PlanStepId → Option (List (List PlanStepId)))
    → Option (List (List PlanStepId))
place plan remaining [] next = none
place plan remaining (r ∷ rs) next =
    let wave = wave_of plan (r ∷ rs) in cons_wave wave (next (remove_all wave remaining))

unfoldable pub place_all : ℕ → Plan → Adjacency → List PlanStepId → Option (List (List PlanStepId))
place_all fuel plan adj [] = some []
place_all zero plan adj (id ∷ ids) = none
place_all (suc fuel) plan adj (id ∷ ids) =
    place plan (id ∷ ids) (ready adj (id ∷ ids)) (place_all fuel plan adj)

unfoldable pub topological_waves : Plan → Option (List (List PlanStepId))
unfolding adjacency place_all
topological_waves plan =
    let adj = adjacency plan in place_all (length plan.steps) plan adj (keys adj)
