-- ===== src/Plan/Schedule.antt =====
-- The execution order of a plan: crates/valyria-plan/src/schedule.rs, from the `ValidatedPlan` of
-- validate.rs.
pub mod Next
pub mod Groups
use valyria.Common.{
  ℕ, Bool, false, not, Option, none, some, List, [], ◌∷◌, ◌++◌, string_eq, filterb, findb, contains,
  if◌then◌else◌, length,
}
use valyria.Plan.Model.{PlanStepId, PlanStep, Plan, step}

pub record ValidatedPlan : Type 0 where
  pub plan : Plan
  pub waves : List (List PlanStepId)

abbrev pub Group : Type 0
Group = List PlanStepId

pub record Schedule : Type 0 where
  pub plan : Plan
  pub waves : List (List Group)
  pub order : List PlanStepId

abbrev pub is_parallelizable : Option PlanStep → Bool
is_parallelizable none = false
is_parallelizable (some s) = s.parallelizable

abbrev pub close : List Group → Group → List Group
close groups [] = groups
close groups (id ∷ bucket) = groups ++ (id ∷ bucket) ∷ []

-- The inner loop, with its two accumulators.
abbrev pub group_wave : Plan → List PlanStepId → List Group → Group → List Group
group_wave plan [] groups bucket = close groups bucket
group_wave plan (id ∷ ids) groups bucket =
    let alone = group_wave plan ids (groups ++ (id ∷ []) ∷ []) bucket in
    let together = group_wave plan ids groups (bucket ++ id ∷ []) in
    if is_parallelizable (step plan id) then together else alone

-- The outer loop.
abbrev pub schedule_waves :
    Plan → List (List PlanStepId) → List (List Group) → List PlanStepId → Schedule
schedule_waves plan [] waves order = record { plan = plan; waves = waves; order = order }
schedule_waves plan (w ∷ ws) waves order =
    schedule_waves plan ws (waves ++ group_wave plan w [] [] ∷ []) (order ++ w)

unfoldable pub schedule : ValidatedPlan → Schedule
schedule validated = schedule_waves validated.plan validated.waves [] []

abbrev pub and_step : Plan → Option PlanStepId → Option PlanStep
and_step plan none = none
and_step plan (some id) = step plan id

unfoldable pub next_incomplete : Schedule → List PlanStepId → Option PlanStep
next_incomplete s done = and_step s.plan (findb (λ id. not (contains done id)) s.order)

unfoldable pub remaining : Schedule → List PlanStepId → ℕ
remaining s done = length (filterb (λ id. not (contains done id)) s.order)

abbrev pub all_groups : List (List Group) → List Group
all_groups [] = []
all_groups (w ∷ ws) = w ++ all_groups ws

unfoldable pub group_for : Schedule → PlanStepId → Option Group
group_for s id = findb (λ group. contains group id) (all_groups s.waves)
