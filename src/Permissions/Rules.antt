-- ===== src/Permissions/Rules.antt =====
-- The default decision table: crates/valyria-permissions/src/rules.rs.
pub mod Table
use valyria.Common.{Bool, ◌==◌, if◌then◌else◌}
use valyria.Permissions.Request.{
  PermissionMode, manual, assisted, autonomous, PermissionCategory, filesystem, shell, network,
  dependency_installation, destructive_commands, git_history_modification, outside_workspace_access,
  secret_access, plan_scope_expansion, read, action_eq, is_safe, auto_allowable, PermissionRequest,
}

pub data DefaultDecision : Type 0 where
  allow ask deny : DefaultDecision

scoped_write : PermissionMode → Bool → DefaultDecision
scoped_write manual in_scope = ask
scoped_write assisted in_scope = if in_scope then allow else ask
scoped_write autonomous in_scope = if in_scope then allow else ask

filesystem_decision : PermissionMode → PermissionRequest → DefaultDecision
unfolding scoped_write
filesystem_decision mode req =
    if req.action == read then allow else scoped_write mode req.in_plan_scope

shell_decision : PermissionMode → PermissionRequest → DefaultDecision
unfolding auto_allowable
shell_decision manual req = ask
shell_decision assisted req = if is_safe req.risk then allow else ask
shell_decision autonomous req = if auto_allowable req.risk then allow else ask

decide_category : PermissionCategory → PermissionMode → PermissionRequest → DefaultDecision
unfolding filesystem_decision shell_decision
decide_category git_history_modification mode req = deny
decide_category secret_access mode req = ask
decide_category dependency_installation mode req = ask
decide_category destructive_commands mode req = ask
decide_category outside_workspace_access mode req = ask
decide_category plan_scope_expansion mode req = ask
decide_category network mode req = ask
decide_category filesystem mode req = filesystem_decision mode req
decide_category shell mode req = shell_decision mode req

unfoldable pub default_decision : PermissionMode → PermissionRequest → DefaultDecision
unfolding decide_category
default_decision mode req = decide_category req.category mode req
