-- ===== src/Permissions/Engine/Decisions.antt =====
-- What `evaluate` of crates/valyria-permissions/src/engine.rs answers, and what it hands out.
use valyria.Common.{
  ℕ, ◌≤◌, ◌≡◌, ◌↔◌, ◌⊎◌, inl, inr, Bool, true, false, ◌||◌, String, Option, none, some, arith, anyb,
  findb, ◌==◌, ==_iff, string_eq, lookup-insert, lookup-remove, nat_eq, if◌then◌else◌, Option-cases,
  is_some, findb_sound, is_some-findb,
}
use valyria.Permissions.Request.{PermissionMode, PermissionRequest, git_history_modification}
use valyria.Permissions.Rules.{DefaultDecision, default_decision}
use valyria.Permissions.Rules.Table.{default_decision-deny}
use valyria.Permissions.Grants.{Grant, GrantStore, covers, find_covering, has_expired}
use valyria.Permissions.Authorization.{Authorization, matches, is_expired}
use valyria.Permissions.Engine.{
  Decision, allow, deny, ask, PermissionEngine, set_mode, set_task_mode, clear_task_mode,
  effective_mode, evaluate,
}

abbrev pub is_allow : Decision → Bool
is_allow (allow a) = true
is_allow _ = false

-- Some remembered grant covers the request.
abbrev pub is_covered : PermissionEngine → PermissionRequest → ℕ → Bool
is_covered e req now = anyb (λ g. covers g req e.session now) e.grants

abbrev pub table : PermissionEngine → PermissionRequest → DefaultDecision
table e req = default_decision (effective_mode e req.task_id) req

is_some-find_covering :
    (e : PermissionEngine) (req : PermissionRequest) (now : ℕ)
    → is_some (find_covering req e.session now e.grants) ≡ is_covered e req now
unfolding find_covering
is_some-find_covering e req now = is_some-findb _ e.grants

abbrev pub allows : DefaultDecision → Bool
allows DefaultDecision.allow = true
allows _ = false

pub is_allow-evaluate :
    (e : PermissionEngine) (req : PermissionRequest) (now : ℕ)
    → is_allow (evaluate e req now).1 ≡ (is_covered e req now || allows (table e req))
unfolding evaluate
is_allow-evaluate e req now = ground (arith, is_some-find_covering e req now)

-- The answer on every branch. A request is allowed exactly if a grant covers it or the table allows
-- it in the task's effective mode; the engine asks exactly if no grant covers it and the table
-- asks; and it denies exactly if no grant covers it and it would modify the git history.
pub evaluate_answers :
    (e : PermissionEngine) (req : PermissionRequest) (now : ℕ)
    → (is_allow (evaluate e req now).1 ≡ true
        ↔ ((is_covered e req now ≡ true) ⊎ (table e req ≡ DefaultDecision.allow)))
      × ((evaluate e req now).1 ≡ ask
          ↔ ((is_covered e req now ≡ false) × (table e req ≡ DefaultDecision.ask)))
      × ((evaluate e req now).1 ≡ deny
          ↔ ((is_covered e req now ≡ false) × (req.category ≡ git_history_modification)))
unfolding evaluate
evaluate_answers e req now =
    let covered = is_some-find_covering e req now in
    let denied = default_decision-deny (effective_mode e req.task_id) req in
    (
      (λ h. ground arith, λ h. ground arith),
      (λ h. ground arith, λ h. ground arith),
      (λ h. ground arith, λ h. ground arith),
    )

abbrev expiry_of : Option Grant → Option ℕ
expiry_of none = none
expiry_of (some g) = g.expires_at

covers_live :
    (g : Grant) (req : PermissionRequest) (session : Option ℕ) (now : ℕ)
    → covers g req session now ≡ true
    → has_expired g.expires_at now ≡ false
unfolding covers
covers_live g req session now h = ground arith

find_covering_live :
    (req : PermissionRequest) (session : Option ℕ) (now : ℕ) (grants : GrantStore)
    → has_expired (expiry_of (find_covering req session now grants)) now ≡ false
unfolding find_covering
find_covering_live req session now grants =
    elim (Option-cases (findb (λ g. covers g req session now) grants)) [
      | inl e ↦ rw e
      | inr (g, e) ↦ rw e (covers_live g req session now (findb_sound _ grants g e))
    ]

-- An authorization that `evaluate` hands out fits exactly the calls with the request's task, step,
-- tool and input; it was issued now and has not expired.
pub evaluate-matches :
    (e : PermissionEngine) (req : PermissionRequest) (now : ℕ) (a : Authorization)
    (task step hash : ℕ) (tool : String)
    → (evaluate e req now).1 ≡ allow a
    → (matches a task step tool hash ≡ true ↔ (
        (task ≡ req.task_id) × (step ≡ req.step_id) × (tool ≡ req.tool) × (hash ≡ req.input_hash)))
      × (a.issued_at ≡ now)
      × (is_expired a now ≡ false)
unfolding evaluate matches is_expired
evaluate-matches e req now a task step hash tool h =
    let texts = ==_iff a.key.tool tool in
    let live = find_covering_live req e.session now e.grants in
    ((λ m. ground arith, λ m. ground arith), ground arith, ground arith)

-- An authorization that has expired stays so.
is_expired_mono :
    (a : Authorization) (now later : ℕ)
    → now ≤ later
    → is_expired a now ≡ true
    → is_expired a later ≡ true
unfolding is_expired
is_expired_mono a now later h e = ground arith

-- A pinned mode holds for its task alone, whatever the global mode becomes; clearing it gives the
-- task the global mode again.
effective_mode_laws :
    (e : PermissionEngine) (t u : ℕ) (m g : PermissionMode)
    → (effective_mode (set_task_mode e t m) u ≡ (if t == u then m else effective_mode e u))
      × (effective_mode (clear_task_mode e t) u ≡ (if t == u then e.mode else effective_mode e u))
      × (effective_mode (set_mode (set_task_mode e t m) g) t ≡ m)
      × (effective_mode (set_mode (clear_task_mode e t) g) t ≡ g)
unfolding effective_mode set_task_mode clear_task_mode set_mode
effective_mode_laws e t u m g = (
  ground (arith, lookup-insert t u m e.task_modes),
  ground (arith, lookup-remove t u e.task_modes),
  ground (arith, lookup-insert t t m e.task_modes),
  ground (arith, lookup-remove t t e.task_modes),
)
