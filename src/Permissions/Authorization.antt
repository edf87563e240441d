-- ===== src/Permissions/Authorization.antt =====
-- The capability that a tool needs to run: crates/valyria-permissions/src/authorization.rs.
use valyria.Common.{ℕ, Bool, ◌&&◌, String, Option, ◌==◌, nat_eq, string_eq}
use valyria.Permissions.Grants.{has_expired}

pub record AuthorizationKey : Type 0 where
  pub task_id : ℕ
  pub step_id : ℕ
  pub tool : String
  pub input_hash : ℕ

pub record Authorization : Type 0 where
  pub key : AuthorizationKey
  pub issued_at : ℕ
  pub expires_at : Option ℕ

unfoldable pub issue : AuthorizationKey → ℕ → Option ℕ → Authorization
issue key issued_at expires_at = record {
  key = key;
  issued_at = issued_at;
  expires_at = expires_at;
}

unfoldable pub matches : Authorization → ℕ → ℕ → String → ℕ → Bool
matches a task_id step_id tool input_hash =
    a.key.task_id == task_id
    && a.key.step_id == step_id
    && a.key.tool == tool
    && a.key.input_hash == input_hash

unfoldable pub is_expired : Authorization → ℕ → Bool
is_expired a now = has_expired a.expires_at now
