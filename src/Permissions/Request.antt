-- ===== src/Permissions/Request.antt =====
-- What a tool asks for: crates/valyria-permissions/src/request.rs and the modes and categories of
-- crates/valyria-types/src/policy.rs. Ids, hashes and timestamps are numbers, compared by value.
use valyria.Common.{ℕ, ◌≡◌, ◌↔◌, Bool, true, false, String, arith, PartialEq, nat_eqb}

pub data PermissionMode : Type 0 where
  manual assisted autonomous : PermissionMode

pub data PermissionCategory : Type 0 where
  filesystem shell network dependency_installation destructive_commands : PermissionCategory
  git_history_modification outside_workspace_access secret_access : PermissionCategory
  plan_scope_expansion : PermissionCategory

pub data ActionKind : Type 0 where
  read write execute : ActionKind

pub data RiskLevel : Type 0 where
  safe controlled unknown destructive : RiskLevel

unfoldable pub auto_allowable : RiskLevel → Bool
auto_allowable safe = true
auto_allowable controlled = true
auto_allowable unknown = false
auto_allowable destructive = false

pub record PermissionRequest : Type 0 where
  pub task_id : ℕ
  pub step_id : ℕ
  pub tool : String
  pub category : PermissionCategory
  pub action : ActionKind
  pub risk : RiskLevel
  pub input_hash : ℕ
  pub target : String
  pub in_plan_scope : Bool

-- The derived `PartialEq` of the enums compares discriminants.
abbrev pub category_index : PermissionCategory → ℕ
category_index filesystem = 0
category_index shell = 1
category_index network = 2
category_index dependency_installation = 3
category_index destructive_commands = 4
category_index git_history_modification = 5
category_index outside_workspace_access = 6
category_index secret_access = 7
category_index plan_scope_expansion = 8

abbrev pub category_eqb : PermissionCategory → PermissionCategory → Bool
category_eqb a b = nat_eqb (category_index a) (category_index b)

pub category_eqb_iff : (a b : PermissionCategory) → (category_eqb a b ≡ true) ↔ (a ≡ b)
category_eqb_iff a b = ground arith

abbrev pub action_index : ActionKind → ℕ
action_index read = 0
action_index write = 1
action_index execute = 2

abbrev pub action_eqb : ActionKind → ActionKind → Bool
action_eqb a b = nat_eqb (action_index a) (action_index b)

pub action_eqb_iff : (a b : ActionKind) → (action_eqb a b ≡ true) ↔ (a ≡ b)
action_eqb_iff a b = ground arith

instance abbrev pub category_eq : PartialEq PermissionCategory
category_eq = record { eq = category_eqb; eq_iff = category_eqb_iff }

instance abbrev pub action_eq : PartialEq ActionKind
action_eq = record { eq = action_eqb; eq_iff = action_eqb_iff }

abbrev pub is_safe : RiskLevel → Bool
is_safe safe = true
is_safe _ = false
