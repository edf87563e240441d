-- ===== src/Permissions/Engine/Reuse.antt =====
-- How far an approval reaches: `approve` of crates/valyria-permissions/src/engine.rs followed by
-- `evaluate`, over the grants of grants.rs.
use valyria.Common.{
  ℕ, ◌≡◌, ◌↔◌, true, false, ◌||◌, Option, none, some, [], ◌∷◌, arith, anyb, anyb-append, ==_refl,
  ==_iff, nat_eq, string_eq,
}
use valyria.Permissions.Request.{PermissionRequest, git_history_modification}
use valyria.Permissions.Grants.{
  GrantScope, one_shot, for_task, workspace, for_session, Grant, GrantStore, add, covers, in_scope,
  has_expired,
}
use valyria.Permissions.Engine.{PermissionEngine, effective_mode, evaluate, approve}
use valyria.Permissions.Engine.Decisions.{is_allow, is_allow-evaluate}

-- The grant that an approval leaves behind.
abbrev pub grant_of : PermissionRequest → GrantScope → Option ℕ → ℕ → Grant
grant_of req scope expires_at now = record {
  scope = scope;
  tool = req.tool;
  category = req.category;
  action = req.action;
  granted_at = now;
  expires_at = expires_at;
}

anyb-add :
    (g : Grant) (gs : GrantStore) (req : PermissionRequest) (session : Option ℕ) (now : ℕ)
    → anyb (λ x. covers x req session now) (add g gs)
      ≡ (anyb (λ x. covers x req session now) gs || covers g req session now)
unfolding add covers in_scope
anyb-add g gs req session now =
    ground (arith, anyb-append (λ x. covers x req session now) gs (g ∷ []))

-- After an approval a later request is allowed exactly if it was allowed before, or the grant
-- covers it.
pub approve_then_evaluate :
    (e : PermissionEngine) (req later : PermissionRequest) (scope : GrantScope) (exp : Option ℕ)
    (now at : ℕ)
    → is_allow (evaluate (approve e req scope exp now).0 later at).1
      ≡ (is_allow (evaluate e later at).1 || covers (grant_of req scope exp now) later e.session at)
unfolding approve effective_mode
approve_then_evaluate e req later scope exp now at = ground (
  arith,
  is_allow-evaluate e later at,
  is_allow-evaluate (approve e req scope exp now).0 later at,
  anyb-add (grant_of req scope exp now) e.grants later e.session at,
)

-- The scope that a later request has to stand in.
abbrev pub Reaches : GrantScope → PermissionRequest → Option ℕ → Type 0
Reaches one_shot req session = ⊥
Reaches (for_task t) req session = t ≡ req.task_id
Reaches workspace req session = Unit {0}
Reaches (for_session s) req session = session ≡ some s

-- A grant covers a request exactly if tool, category and action are the same, it has not expired
-- and the request stands in its scope; no `OneShot` grant covers any.
covers_iff :
    (g : Grant) (req : PermissionRequest) (session : Option ℕ) (now : ℕ)
    → covers g req session now ≡ true ↔ (
        (g.tool ≡ req.tool)
        × (g.category ≡ req.category)
        × (g.action ≡ req.action)
        × (has_expired g.expires_at now ≡ false)
        × Reaches g.scope req session)
unfolding covers in_scope
covers_iff g req session now =
    let texts = ==_iff g.tool req.tool in (λ h. ground arith, λ h. ground arith)

-- An approval with the scope of the workspace and no expiry lets a request pass that modifies the
-- git history, which the table denies in every mode.
approve_overrides_deny :
    (e : PermissionEngine) (req : PermissionRequest) (now later : ℕ)
    → req.category ≡ git_history_modification
    → is_allow (evaluate (approve e req workspace none now).0 req later).1 ≡ true
unfolding covers in_scope
approve_overrides_deny e req now later h =
    ground (arith, approve_then_evaluate e req req workspace none now later, ==_refl req.tool)
