-- ===== src/Permissions/Grants.antt =====
-- Remembered approvals: crates/valyria-permissions/src/grants.rs. The lock around the vector is
-- not modelled: each operation is one step.
use valyria.Common.{
  ℕ, Bool, true, false, not, ◌||◌, String, Option, none, some, List, [], ◌∷◌, ◌++◌, ◌==◌, leb,
  nat_eq, string_eq, option_eq, findb, if◌then◌else◌,
}
use valyria.Permissions.Request.{
  PermissionCategory, ActionKind, PermissionRequest, category_eq, action_eq,
}

pub data GrantScope : Type 0 where
  one_shot : GrantScope
  for_task : ℕ → GrantScope
  workspace : GrantScope
  for_session : ℕ → GrantScope

pub record Grant : Type 0 where
  pub scope : GrantScope
  pub tool : String
  pub category : PermissionCategory
  pub action : ActionKind
  pub granted_at : ℕ
  pub expires_at : Option ℕ

-- `now.as_millis() >= exp.as_millis()`, if there is an expiry.
abbrev pub has_expired : Option ℕ → ℕ → Bool
has_expired none now = false
has_expired (some exp) now = leb exp now

unfoldable pub in_scope : GrantScope → PermissionRequest → Option ℕ → Bool
in_scope one_shot req session = false
in_scope (for_task t) req session = t == req.task_id
in_scope workspace req session = true
in_scope (for_session s) req session = some s == session

unfoldable pub covers : Grant → PermissionRequest → Option ℕ → ℕ → Bool
unfolding in_scope
covers g req current_session now =
    if not (g.tool == req.tool) || not (g.category == req.category) || not (g.action == req.action)
    then false
    else if has_expired g.expires_at now
    then false
    else in_scope g.scope req current_session

-- `GrantStore`: the grants in the order in which they were added.
abbrev pub GrantStore : Type 0
GrantStore = List Grant

abbrev is_one_shot : GrantScope → Bool
is_one_shot one_shot = true
is_one_shot _ = false

unfoldable pub add : Grant → GrantStore → GrantStore
add grant grants = if is_one_shot grant.scope then grants else grants ++ grant ∷ []

unfoldable pub find_covering : PermissionRequest → Option ℕ → ℕ → GrantStore → Option Grant
find_covering req current_session now = findb λ g. covers g req current_session now
