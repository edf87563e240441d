-- ===== src/Plan/Waves/Cycles.antt =====
-- Cycle detection: what `topological_waves` of crates/valyria-plan/src/validate.rs says of a plan
-- whose steps wait for each other.
use valyria.Common.{
  true, false, none, List, [], ◌∷◌, string_eq, contains, ◌≡◌, refl, ◌↔◌, arith, ==_iff, ==_refl,
  Bool-cases, inl, inr, Option-cases,
}
use valyria.Plan.Model.{PlanStepId, Plan}
use valyria.Plan.Waves.{Adjacency, adjacency, keys, topological_waves}
use valyria.Plan.Waves.Sets.{contains-keys}
use valyria.Plan.Waves.Order.{IsOrdered, before, flatten}
use valyria.Plan.Waves.Progress.{IsStuck, topological_waves-IsStuck, topological_waves-IsOrdered}

-- The first of the list that is in the set.
pub first_in :
    (stuck order : List PlanStepId) (x : PlanStepId)
    → contains stuck x ≡ true
    → contains order x ≡ true
    → (y : PlanStepId) × (contains stuck y ≡ true)
      × ((d : PlanStepId) → contains (before y order) d ≡ true → contains stuck d ≡ false)
first_in stuck [] x s o = cc
first_in stuck (z ∷ order) x s o = elim (Bool-cases (contains stuck z)) [
  | inl e ↦ (z, e, λ d h. ground (arith, ==_refl z))
  | inr e ↦
      let (y, is_in, free) = first_in stuck order x s (ground (arith, ==_iff z x)) in
      (y, is_in, λ d h. ground (arith, free d, ==_iff z d, ==_iff z y))
]

never_ordered :
    (adj : Adjacency) (stuck : List PlanStepId) (ws : List (List PlanStepId))
    → IsStuck adj stuck
    → IsOrdered adj (keys adj) ws
    → ⊥
never_ordered adj stuck ws s o =
    let in_keys = λ (k : PlanStepId) (h : contains stuck k ≡ true).
      let needs = s.waits k h in
      let here : contains (keys adj) k ≡ true = rw (contains-keys adj k, needs.entry) refl in
      here in
    let placed : contains (flatten ws) s.some_step ≡ true =
      ground (arith, o.places s.some_step, in_keys s.some_step s.is_in) in
    let (y, is_in, free) = first_in stuck (flatten ws) s.some_step s.is_in placed in
    let needs = s.waits y is_in in
    let d = needs.dependency in
    let early =
      o.dependencies_first y d needs.deps (in_keys y is_in) needs.entry needs.is_dependency
        (in_keys d needs.is_stuck) in
    cc (free d early, needs.is_stuck)

-- No waves are found exactly if some steps wait for each other: there is at least one of them, and
-- each depends on one of them. So the loop fails for no other reason, its fuel included.
pub topological_waves-none :
    (plan : Plan)
    → (topological_waves plan ≡ none) ↔ ((stuck : List PlanStepId) × IsStuck (adjacency plan) stuck)
topological_waves-none plan = (
  topological_waves-IsStuck plan,
  λ (stuck, s). elim (Option-cases (topological_waves plan)) [
    | inl e ↦ e
    | inr (ws, e) ↦
        absurd (never_ordered (adjacency plan) stuck ws s (topological_waves-IsOrdered plan ws e))
  ],
)
