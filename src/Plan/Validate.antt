-- ===== src/Plan/Validate.antt =====
-- Validation of plans: crates/valyria-plan/src/validate.rs. An error keeps its code and its step; the
-- texts of its message and its hint are left out. Resolving a path under the workspace root and
-- `Path::starts_with` are parameters in the context: they look at the file system and at the
-- platform's path syntax.
pub mod Errors
pub mod Sound
use Prim.Native.String.{len, slice, ◌++◌ as append}
use text.Mathlib.Text.{get?, find?, starts_with}
use valyria.Common.{
  ℕ, zero, suc, ◌+◌, ◌-◌, Bool, true, false, not, ◌&&◌, ◌||◌, String, Option, none, some, List, [],
  ◌∷◌, ◌++◌, map, string_eq, option_eq, ◌==◌, contains, anyb, if◌then◌else◌, is_some,
}
use valyria.Permissions.Request.{PermissionMode, manual}
use valyria.Plan.Model.{PlanStepId, PlanStep, Plan, step_ids, is_mutating, is_none}
use valyria.Plan.Waves.{topological_waves}
use valyria.Plan.FindCycle.{find_cycle}
use valyria.Plan.Schedule.{ValidatedPlan}

pub data PlanErrorCode : Type 0 where
  empty_plan not_submitted malformed duplicate_step_id unknown_dependency : PlanErrorCode
  cyclic_dependency mutating_step_without_verification : PlanErrorCode
  rollback_boundary_without_checkpoint target_outside_plan_scope : PlanErrorCode
  target_unresolvable plan_scope_outside_profile : PlanErrorCode

pub record PlanError : Type 0 where
  pub code : PlanErrorCode
  pub step : Option PlanStepId

pub record PlanContext : Type 0 where
  pub resolve : String → Option String
  pub under : String → String → Bool
  pub permission_mode : PermissionMode
  pub allowed_write_roots : List String

abbrev pub plan_error : PlanErrorCode → PlanError
plan_error code = record { code = code; step = none }

abbrev pub step_error : PlanErrorCode → PlanStep → PlanError
step_error code s = record { code = code; step = some s.id }

abbrev pub error_if : Bool → PlanError → List PlanError
error_if true e = e ∷ []
error_if false e = []

-- The loop over `seen`.
abbrev pub duplicate_errors : List PlanStepId → List PlanStep → List PlanError
duplicate_errors seen [] = []
duplicate_errors seen (s ∷ ss) =
    error_if (contains seen s.id) (step_error duplicate_step_id s)
    ++ duplicate_errors (s.id ∷ seen) ss

abbrev pub unknown_errors : List PlanStepId → PlanStep → List PlanStepId → List PlanError
unknown_errors ids s [] = []
unknown_errors ids s (dep ∷ deps) =
    error_if (not (contains ids dep)) (step_error unknown_dependency s) ++ unknown_errors ids s deps

abbrev pub dependency_errors : List PlanStepId → List PlanStep → List PlanError
dependency_errors ids [] = []
dependency_errors ids (s ∷ ss) = unknown_errors ids s s.depends_on ++ dependency_errors ids ss

abbrev pub cycle_first : List PlanStepId → Option PlanStepId
cycle_first [] = none
cycle_first (id ∷ ids) = some id

abbrev pub cycle_errors : Option (List PlanStepId) → List PlanError
cycle_errors none = []
cycle_errors (some cycle) = record { code = cyclic_dependency; step = cycle_first cycle } ∷ []

abbrev pub mutation_errors : List PlanStep → List PlanError
mutation_errors [] = []
mutation_errors (s ∷ ss) =
    error_if (is_mutating s && is_none s.verification)
      (step_error mutating_step_without_verification s)
    ++ error_if (s.rollback_boundary && not s.checkpoint)
        (step_error rollback_boundary_without_checkpoint s)
    ++ mutation_errors ss

-- `trim_end_matches('/')`, over as many bytes as the text has.
abbrev pub trim : ℕ → String → String
trim zero s = s
trim (suc n) s =
    let shorter = trim n (slice s 0 (len s - 1)) in
    if get? s (len s - 1) (len s) == some "/" then shorter else s

abbrev pub trim_end : String → String
trim_end s = trim (len s) s

-- `replace('\\', "/")`, where each backslash is found and the rest is replaced.
abbrev pub replace_at : String → (String → String) → Option ℕ → String
replace_at s rest none = s
replace_at s rest (some i) = append (slice s 0 i) (append "/" (rest (slice s (i + 1) (len s))))

abbrev pub forward : ℕ → String → String
forward zero s = s
forward (suc n) s = replace_at s (forward n) (find? s "\\")

abbrev pub scope_prefix : String → String
scope_prefix s = let t = trim_end s in if t == "" then "" else append t "/"

abbrev pub has_prefix : String → String → Bool
has_prefix t p = if p == "" then true else (t == trim_end p) || starts_with t p

abbrev pub in_scope : String → List String → Bool
in_scope target scope_prefixes =
    let t = forward (len target) target in anyb (has_prefix t) scope_prefixes

abbrev pub is_empty {ℓ} : {A : Type ℓ} → List A → Bool
is_empty [] = true
is_empty (x ∷ xs) = false

abbrev pub is_writable : PlanContext → Option String → Bool
is_writable cx none = false
is_writable cx (some resolved) =
    is_empty cx.allowed_write_roots || anyb (λ root. cx.under resolved root) cx.allowed_write_roots

abbrev pub scope_errors : PlanContext → List String → List PlanError
scope_errors cx [] = []
scope_errors cx (raw ∷ raws) =
    error_if (not (is_writable cx (cx.resolve (trim_end raw))))
      (plan_error plan_scope_outside_profile)
    ++ scope_errors cx raws

abbrev pub is_manual : PermissionMode → Bool
is_manual manual = true
is_manual _ = false

abbrev pub target_errors : PlanContext → List String → PlanStep → List String → List PlanError
target_errors cx prefixes s [] = []
target_errors cx prefixes s (target ∷ targets) =
    (if is_some (cx.resolve target)
      then error_if (not (is_empty prefixes) && not (in_scope target prefixes))
          (step_error target_outside_plan_scope s)
      else step_error target_unresolvable s ∷ [])
    ++ target_errors cx prefixes s targets

abbrev pub all_target_errors : PlanContext → List String → List PlanStep → List PlanError
all_target_errors cx prefixes [] = []
all_target_errors cx prefixes (s ∷ ss) =
    target_errors cx prefixes s s.targets ++ all_target_errors cx prefixes ss

unfoldable pub validate_scope : Plan → PlanContext → List PlanError
validate_scope plan cx =
    scope_errors cx plan.plan_scope
    ++ error_if (is_manual cx.permission_mode && not (is_empty plan.plan_scope))
        (plan_error plan_scope_outside_profile)
    ++ all_target_errors cx (map scope_prefix plan.plan_scope) plan.steps

-- All errors of a plan that has steps, in the order in which they are pushed.
unfoldable pub all_errors : Plan → PlanContext → List PlanError
unfolding find_cycle validate_scope
all_errors plan cx =
    duplicate_errors [] plan.steps
    ++ dependency_errors (step_ids plan.steps) plan.steps
    ++ cycle_errors (find_cycle plan)
    ++ mutation_errors plan.steps
    ++ validate_scope plan cx

-- `panics` stands for the failure of the `expect`.
pub data Validation : Type 0 where
  accepted : ValidatedPlan → Validation
  rejected : List PlanError → Validation
  panics : Validation

abbrev pub with_waves : Plan → Option (List (List PlanStepId)) → Validation
with_waves plan none = panics
with_waves plan (some waves) = accepted (record { plan = plan; waves = waves })

abbrev pub conclude : Plan → List PlanError → Validation
conclude plan [] = with_waves plan (topological_waves plan)
conclude plan (e ∷ es) = rejected (e ∷ es)

unfoldable pub validate : Plan → PlanContext → Validation
unfolding all_errors
validate plan cx =
    if is_empty plan.steps
    then rejected (plan_error empty_plan ∷ [])
    else conclude plan (all_errors plan cx)
