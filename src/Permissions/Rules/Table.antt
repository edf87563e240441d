-- ===== src/Permissions/Rules/Table.antt =====
-- What the default table of crates/valyria-permissions/src/rules.rs promises in every mode.
use valyria.Common.{ℕ, ◌≤◌, ◌≡◌, ◌≢◌, ◌↔◌, ◌⊎◌, true, arith}
use valyria.Permissions.Request.{
  PermissionMode, manual, assisted, autonomous, filesystem, shell, git_history_modification, read,
  safe, controlled, PermissionRequest,
}
use valyria.Permissions.Rules.{ask, deny, DefaultDecision, allow, default_decision}

-- How much a mode lets through: Manual, then Assisted, then Autonomous.
abbrev pub autonomy : PermissionMode → ℕ
autonomy manual = 0
autonomy assisted = 1
autonomy autonomous = 2

-- How much a decision lets through.
abbrev pub leniency : DefaultDecision → ℕ
leniency deny = 0
leniency ask = 1
leniency allow = 2

-- A more autonomous mode is at least as lenient on every request: it allows all that a less
-- autonomous mode allows, and denies nothing that the other mode does not deny.
default_decision_mono :
    (m n : PermissionMode) (req : PermissionRequest)
    → autonomy m ≤ autonomy n
    → leniency (default_decision m req) ≤ leniency (default_decision n req)
unfolding default_decision
default_decision_mono m n req h = ground arith

-- When the table allows with no question: a read of the file system in any mode; another file
-- system action in the plan's scope unless the mode is Manual; a shell command that is `Safe` in
-- Assisted or Autonomous mode, or `Controlled` in Autonomous mode.
abbrev pub AutoAllowed : PermissionMode → PermissionRequest → Type 0
AutoAllowed m req =
    (req.category ≡ filesystem)
      × ((req.action ≡ read) ⊎ ((m ≢ manual) × (req.in_plan_scope ≡ true)))
    ⊎ (req.category ≡ shell)
      × (((m ≢ manual) × (req.risk ≡ safe)) ⊎ ((m ≡ autonomous) × (req.risk ≡ controlled)))

-- The table allows a request exactly in these cases: a read of the file system; another file system
-- action in the plan's scope unless the mode is Manual; a shell command that is `Safe` in Assisted
-- or Autonomous mode, or `Controlled` in Autonomous mode.
pub default_decision-AutoAllowed :
    (m : PermissionMode) (req : PermissionRequest)
    → (default_decision m req ≡ allow) ↔ AutoAllowed m req
unfolding default_decision
default_decision-AutoAllowed m req = (λ h. ground arith, λ h. ground arith)

-- The table denies a request exactly when it would modify the git history, in every mode.
pub default_decision-deny :
    (m : PermissionMode) (req : PermissionRequest)
    → (default_decision m req ≡ deny) ↔ (req.category ≡ git_history_modification)
unfolding default_decision
default_decision-deny m req = (λ h. ground arith, λ h. ground arith)
