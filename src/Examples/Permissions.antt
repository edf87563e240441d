-- ===== src/Examples/Permissions.antt =====
-- Requests and approvals of crates/valyria-permissions at concrete inputs.
use valyria.Common.{
  nat_eq, string_eq, option_eq, ℕ, ◌≡◌, refl, ◌↔◌, ◌⊎◌, true, false, ◌||◌, none, List, [], ◌∷◌,
}
use valyria.Permissions.Request.{
  assisted, autonomous, filesystem, git_history_modification, write, execute, controlled,
  PermissionRequest, category_eq, action_eq,
}
use valyria.Permissions.Rules.{DefaultDecision, default_decision}
use valyria.Permissions.Grants.{covers, find_covering, workspace, for_task}
use valyria.Permissions.Authorization.{Authorization, matches, is_expired}
use valyria.Permissions.Engine.{
  allow, deny, ask, PermissionEngine, effective_mode, evaluate, approve,
}
use valyria.Permissions.Engine.Decisions.{
  is_allow, is_covered, table, evaluate_answers, evaluate-matches,
}
use valyria.Permissions.Engine.Reuse.{grant_of, approve_then_evaluate}
use valyria.Permissions.Engine.Audit.{
  Call, evaluates, approves, sets_mode, run, Continues, run-Continues,
}

-- A write of a file in the plan's scope.
abbrev write_request : PermissionRequest
write_request = record {
  task_id = 1;
  step_id = 2;
  tool = "write_file";
  category = filesystem;
  action = write;
  risk = controlled;
  input_hash = 99;
  target = "src/lib.rs";
  in_plan_scope = true;
}

abbrev rebase_request : PermissionRequest
rebase_request = record write_request {
  tool = "git_rebase";
  category = git_history_modification;
  action = execute;
}

abbrev engine : PermissionEngine
engine = record { mode = assisted; task_modes = []; grants = []; session = none; journal = [] }

evaluate_answers_example :
    (is_allow (evaluate engine rebase_request 5).1 ≡ true ↔ (
      (is_covered engine rebase_request 5 ≡ true)
      ⊎ (table engine rebase_request ≡ DefaultDecision.allow)))
    × ((evaluate engine rebase_request 5).1 ≡ ask ↔ (
        (is_covered engine rebase_request 5 ≡ false)
        × (table engine rebase_request ≡ DefaultDecision.ask)))
    × ((evaluate engine rebase_request 5).1 ≡ deny ↔ (
        (is_covered engine rebase_request 5 ≡ false)
        × (rebase_request.category ≡ git_history_modification)))
evaluate_answers_example = evaluate_answers engine rebase_request 5

-- The capability for the write.
abbrev write_authorization : Authorization
write_authorization = record {
  key = record { task_id = 1; step_id = 2; tool = "write_file"; input_hash = 99 };
  issued_at = 5;
  expires_at = none;
}

write_is_allowed : (evaluate engine write_request 5).1 ≡ allow write_authorization
unfolding evaluate find_covering default_decision effective_mode
write_is_allowed = refl

evaluate-matches_example :
    (matches write_authorization 1 3 "write_file" 99 ≡ true ↔ (
      (write_request.task_id ≡ write_request.task_id)
      × (◌≡◌ {A = ℕ} 3 write_request.step_id)
      × (write_request.tool ≡ write_request.tool)
      × (write_request.input_hash ≡ write_request.input_hash)))
    × (write_authorization.issued_at ≡ 5)
    × (is_expired write_authorization 5 ≡ false)
evaluate-matches_example =
    evaluate-matches engine write_request 5 write_authorization 1 3 99 "write_file" write_is_allowed

approve_then_evaluate_example :
    is_allow (evaluate (approve engine rebase_request (for_task 1) none 5).0 rebase_request 6).1 ≡ (
      is_allow (evaluate engine rebase_request 6).1
      || covers (grant_of rebase_request (for_task 1) none 5) rebase_request none 6)
approve_then_evaluate_example =
    approve_then_evaluate engine rebase_request rebase_request (for_task 1) none 5 6

abbrev calls : List Call
calls =
    evaluates rebase_request 5
    ∷ sets_mode autonomous
    ∷ approves rebase_request workspace none 6
    ∷ evaluates rebase_request 7
    ∷ []

run-Continues_example : Continues 3 [] (run engine calls).journal
run-Continues_example = run-Continues engine calls
