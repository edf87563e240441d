-- ===== src/Permissions/Engine.antt =====
-- `PermissionEngine`: crates/valyria-permissions/src/engine.rs. An operation takes the engine and
-- the clock's reading and returns the new engine with its result. The texts of the reason and of
-- the prompt, which only people read, are left out of `Decision`.
pub mod Decisions
pub mod Reuse
pub mod Audit
use valyria.Common.{
  ℕ, String, Option, none, some, List, [], ◌∷◌, ◌++◌, nat_eq, lookup, insert, remove, unwrap_or,
}
use valyria.Permissions.Request.{PermissionMode, PermissionCategory, ActionKind, PermissionRequest}
use valyria.Permissions.Rules.{DefaultDecision, default_decision}
use valyria.Permissions.Grants.{GrantScope, Grant, GrantStore, add, find_covering}
use valyria.Permissions.Authorization.{Authorization, AuthorizationKey, issue}

pub data Decision : Type 0 where
  allow : Authorization → Decision
  deny ask : Decision

pub data DecisionSource : Type 0 where
  existing_grant default_rule explicit_approval : DecisionSource

pub data Outcome : Type 0 where
  allowed denied asked : Outcome

pub record DecisionRecord : Type 0 where
  pub tool : String
  pub category : PermissionCategory
  pub target : String
  pub outcome : Outcome
  pub source : DecisionSource
  pub at : ℕ

pub record PermissionEngine : Type 0 where
  pub mode : PermissionMode
  pub task_modes : List (ℕ × PermissionMode)
  pub grants : GrantStore
  pub session : Option ℕ
  pub journal : List DecisionRecord

unfoldable pub new : PermissionMode → PermissionEngine
new mode = record { mode = mode; task_modes = []; grants = []; session = none; journal = [] }

unfoldable pub with_session : PermissionEngine → ℕ → PermissionEngine
with_session e session = record e { session = some session }

unfoldable pub set_mode : PermissionEngine → PermissionMode → PermissionEngine
set_mode e mode = record e { mode = mode }

unfoldable pub set_task_mode : PermissionEngine → ℕ → PermissionMode → PermissionEngine
set_task_mode e task mode = record e { task_modes = insert task mode e.task_modes }

unfoldable pub clear_task_mode : PermissionEngine → ℕ → PermissionEngine
clear_task_mode e task = record e { task_modes = remove task e.task_modes }

unfoldable pub effective_mode : PermissionEngine → ℕ → PermissionMode
effective_mode e task = unwrap_or e.mode (lookup task e.task_modes)

unfoldable pub mint : PermissionRequest → ℕ → Option ℕ → Authorization
unfolding issue
mint req now expires_at =
    let key : AuthorizationKey = record {
      task_id = req.task_id;
      step_id = req.step_id;
      tool = req.tool;
      input_hash = req.input_hash;
    } in
    issue key now expires_at

unfoldable pub log_decision :
    PermissionEngine → PermissionRequest → Outcome → DecisionSource → ℕ → PermissionEngine
log_decision e req outcome source at =
    let entry : DecisionRecord = record {
      tool = req.tool;
      category = req.category;
      target = req.target;
      outcome = outcome;
      source = source;
      at = at;
    } in
    record e { journal = e.journal ++ entry ∷ [] }

-- The `match` on the default decision.
by_default :
    PermissionEngine → PermissionRequest → ℕ → DefaultDecision → PermissionEngine × Decision
unfolding mint log_decision
by_default e req now DefaultDecision.allow =
    (log_decision e req allowed default_rule now, allow (mint req now none))
by_default e req now DefaultDecision.deny = (log_decision e req denied default_rule now, deny)
by_default e req now DefaultDecision.ask = (log_decision e req asked default_rule now, ask)

-- The `if let` on a covering grant.
by_grant : PermissionEngine → PermissionRequest → ℕ → Option Grant → PermissionEngine × Decision
unfolding by_default
by_grant e req now (some grant) =
    (log_decision e req allowed existing_grant now, allow (mint req now grant.expires_at))
by_grant e req now none = by_default e req now (default_decision (effective_mode e req.task_id) req)

unfoldable pub evaluate : PermissionEngine → PermissionRequest → ℕ → PermissionEngine × Decision
unfolding by_grant
evaluate e req now = by_grant e req now (find_covering req e.session now e.grants)

unfoldable pub approve :
    PermissionEngine
    → PermissionRequest
    → GrantScope
    → Option ℕ
    → ℕ
    → PermissionEngine × Authorization
unfolding mint log_decision
approve e req scope expires_at now =
    let grant : Grant = record {
      scope = scope;
      tool = req.tool;
      category = req.category;
      action = req.action;
      granted_at = now;
      expires_at = expires_at;
    } in
    let e' : PermissionEngine = record e { grants = add grant e.grants } in
    (log_decision e' req allowed explicit_approval now, mint req now expires_at)
