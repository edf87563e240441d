-- ===== src/Plan/Model.antt =====
-- The plan format: crates/valyria-plan/src/model.rs. A `PlanStepId` is its text, and a path is its
-- text; `serde` and the format check of an id are left out.
use valyria.Common.{
  ℕ, String, Bool, true, false, Option, List, [], ◌∷◌, map, string_eq, ◌==◌, findb,
}

abbrev pub PlanStepId : Type 0
PlanStepId = String

pub data VerificationRequirement : Type 0 where
  none inherit : VerificationRequirement
  command : String → VerificationRequirement

pub data Risk : Type 0 where
  low medium high : Risk

pub record EstimatedScope : Type 0 where
  pub files : ℕ
  pub risk : Risk

pub record PlanStep : Type 0 where
  pub id : PlanStepId
  pub intent : String
  pub targets : List String
  pub depends_on : List PlanStepId
  pub parallelizable : Bool
  pub checkpoint : Bool
  pub verification : VerificationRequirement
  pub rollback_boundary : Bool
  pub approval_required : Bool
  pub estimated_scope : EstimatedScope

pub record Plan : Type 0 where
  pub plan_scope : List String
  pub steps : List PlanStep

abbrev pub is_none : VerificationRequirement → Bool
is_none VerificationRequirement.none = true
is_none _ = false

abbrev pub is_mutating : PlanStep → Bool
is_mutating s = has_targets s.targets
  where
    has_targets : List String → Bool
    has_targets [] = false
    has_targets (t ∷ ts) = true

abbrev pub step : Plan → PlanStepId → Option PlanStep
step plan id = findb (λ s. s.id == id) plan.steps

-- `step_ids`: the set of the ids, of which only membership counts here.
abbrev pub step_ids : List PlanStep → List PlanStepId
step_ids steps = map (λ s. s.id) steps
