-- ===== src/Examples/Plan.antt =====
-- A plan of three steps through crates/valyria-plan: validation, order, groups and repair.
use valyria.Common.{
  is_some, option_eq, string_eq, nat_eq, contains, ◌≡◌, refl, ◌↔◌, Bool, true, false, not, none,
  some, List, [], ◌∷◌, arith,
}
use valyria.Permissions.Request.{assisted}
use valyria.Plan.Model.{PlanStepId, PlanStep, Plan, inherit, low}
use valyria.Plan.Waves.{adjacency, place_all, topological_waves}
use valyria.Plan.Waves.Progress.{IsStuck}
use valyria.Plan.Waves.Cycles.{topological_waves-none}
use valyria.Plan.FindCycle.{find_cycle}
use valyria.Plan.FindCycle.Agreement.{find_cycle-topological_waves}
use valyria.Plan.Schedule.{ValidatedPlan, schedule, next_incomplete, group_for}
use valyria.Plan.Schedule.Next.{Unique, IsNext, next_incomplete-IsNext}
use valyria.Plan.Schedule.Groups.{group_for-independent}
use valyria.Plan.Validate.{PlanContext, validate_scope, all_errors, accepted, validate}
use valyria.Plan.Validate.Sound.{IsValid, validate-IsValid, IsValid-validate}

abbrev step_of : PlanStepId → List PlanStepId → Bool → PlanStep
step_of id deps parallelizable = record {
  id = id;
  intent = "change a file";
  targets = "src/lib.rs" ∷ [];
  depends_on = deps;
  parallelizable = parallelizable;
  checkpoint = false;
  verification = inherit;
  rollback_boundary = false;
  approval_required = false;
  estimated_scope = record { files = 1; risk = low };
}

-- The last two steps wait for the first, and stand before it in the list.
abbrev three_steps : Plan
three_steps = record {
  plan_scope = "src/" ∷ [];
  steps = step_of "b" ("a" ∷ []) true ∷ step_of "c" ("a" ∷ []) true ∷ step_of "a" [] false ∷ [];
}

abbrev in_a_ring : Plan
in_a_ring = record {
  plan_scope = [];
  steps = step_of "a" ("b" ∷ []) false ∷ step_of "b" ("a" ∷ []) false ∷ [];
}

abbrev validated : ValidatedPlan
validated = record { plan = three_steps; waves = ("a" ∷ []) ∷ ("b" ∷ "c" ∷ []) ∷ [] }

abbrev context : PlanContext
context = record {
  resolve = λ path. some path;
  under = λ path root. true;
  permission_mode = assisted;
  allowed_write_roots = [];
}

waves_of_three : topological_waves validated.plan ≡ some validated.waves
unfolding topological_waves adjacency place_all
waves_of_three = refl

three_steps-Unique : Unique three_steps.steps
three_steps-Unique = ground arith

ring_stalls : topological_waves in_a_ring ≡ none
unfolding topological_waves adjacency place_all
ring_stalls = refl

topological_waves-none_example :
    (topological_waves in_a_ring ≡ none)
    ↔ ((stuck : List PlanStepId) × IsStuck (adjacency in_a_ring) stuck)
topological_waves-none_example = topological_waves-none in_a_ring

find_cycle-topological_waves_example :
    is_some (find_cycle in_a_ring) ≡ not (is_some (topological_waves in_a_ring))
find_cycle-topological_waves_example = find_cycle-topological_waves in_a_ring

b_is_next : next_incomplete (schedule validated) ("a" ∷ []) ≡ some (step_of "b" ("a" ∷ []) true)
unfolding next_incomplete schedule
b_is_next = refl

next_incomplete-IsNext_example :
    IsNext validated ("a" ∷ []) (next_incomplete (schedule validated) ("a" ∷ []))
next_incomplete-IsNext_example =
    next_incomplete-IsNext validated waves_of_three ("a" ∷ []) three_steps-Unique

group_of_c : group_for (schedule validated) "c" ≡ some ("b" ∷ "c" ∷ [])
unfolding group_for schedule
group_of_c = refl

group_for-independent_example :
    (contains {K = PlanStepId} ("b" ∷ "c" ∷ []) "c" ≡ true)
    × (contains {K = PlanStepId} ("a" ∷ []) "c" ≡ false)
group_for-independent_example =
    group_for-independent validated waves_of_three "c" "b" "c" ("b" ∷ "c" ∷ [])
      (step_of "b" ("a" ∷ []) true) three_steps-Unique group_of_c refl refl refl

three_steps_accepted : validate three_steps context ≡ accepted validated
unfolding validate all_errors find_cycle validate_scope topological_waves adjacency place_all
three_steps_accepted = refl

validate-IsValid_example :
    (three_steps ≡ three_steps)
    × (topological_waves three_steps ≡ some validated.waves)
    × IsValid three_steps context
validate-IsValid_example = validate-IsValid three_steps context validated three_steps_accepted

three_steps-IsValid : IsValid three_steps context
three_steps-IsValid =
    let (_, _, valid) = validate-IsValid three_steps context validated three_steps_accepted in valid

IsValid-validate_example :
    (ws : List (List PlanStepId)) × (topological_waves three_steps ≡ some ws)
    × (validate three_steps context ≡ accepted (record { plan = three_steps; waves = ws }))
IsValid-validate_example = IsValid-validate three_steps context three_steps-IsValid
