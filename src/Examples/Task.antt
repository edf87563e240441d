-- ===== src/Examples/Task.antt =====
-- Runs of the task manager of crates/valyria-task at concrete inputs, over a small type of JSON
-- values.
use valyria.Common.{
  if◌then◌else◌, ◌==◌, nat_eq, string_eq, option_eq, ℕ, ◌+◌, String, ◌≡◌, refl, ◌≢◌, Bool, true,
  false, not, Option, none, some, List, [], ◌∷◌,
}
use valyria.State.{
  AgentState, implementing, verifying, paused, completed, cancelled, state_eq, is_terminal,
  can_transition_to,
}
use valyria.Task.Types.{
  Json, Budget, pause_requested, cancel_requested, Task, JournalEntryKind, effect_issued,
  effect_completed, recovery_note, JournalEntry, PendingToolCall, illegal_transition,
  wrong_resume_target,
}
use valyria.Task.Codec.{state_to_text, signal_to_text, signal_from_text, state_from_text}
use valyria.Task.World.{Row, Environment, World, ok, err, ◌>>=◌}
use valyria.Task.Rows.{get, Reads}
use valyria.Task.Append.{project_events, append_journal}
use valyria.Task.Journal.{issued_call, last_issued}
use valyria.Task.Startup.{recover_incomplete_tasks, recover_rows, recover_row}
use valyria.Task.Startup.Rest.{Distinct, recover_incomplete_tasks-at_rest}
use valyria.Task.Manager.{
  recover_task, update, tell_completed, is_stable_without_a_driver, transition_refusal, set_state,
  transition, set_pending_signal, recover_task_if_active,
}
use valyria.Task.Manager.Calls.{Call, transitions, signals, step, run}
use valyria.Task.Manager.Transition.{moved, get-transition}
use valyria.Task.Manager.Lifecycle.{pause_then_resume}
use valyria.Task.Manager.Recovery.{recovered, recover_task_if_active_lem}
use valyria.Task.Manager.WellFormed.{IsWellFormed, RowOk}
use valyria.Task.Manager.Soundness.{run-IsWellFormed}
use valyria.Task.Manager.Projection.{IsProjected, run-IsProjected}

-- An object is a chain of fields that ends in `null`.
data Value : Type 0 where
  null : Value
  word : String → Value
  flag : Bool → Value
  field : String → Value → Value → Value

abbrev object : List (String × Value) → Value
object [] = null
object ((key, v) ∷ fields) = field key v (object fields)

abbrev get_field : Value → String → Option Value
get_field (field k v others) key = if k == key then some v else get_field others key
get_field _ key = none

abbrev as_str : Value → Option String
as_str (word s) = some s
as_str _ = none

abbrev as_bool : Value → Option Bool
as_bool (flag b) = some b
as_bool _ = none

instance abbrev value_json : Json Value
value_json = record {
  object = object;
  text = word;
  get = get_field;
  as_str = as_str;
  as_bool = as_bool;
}

abbrev no_budget : Budget
no_budget = record { max_steps = none; max_wall_ms = none; max_tokens = none }

abbrev environment : Environment
environment = record { clock = λ n. 100 + n; ids = λ n. 7 + n; id_text = λ n. "id" }

abbrev implementing_task : Task
implementing_task = record {
  id = 1;
  workspace_id = 3;
  parent_task = none;
  objective = "fix the bug";
  state = implementing;
  paused_from = none;
  plan_scope = [];
  budget = no_budget;
  index_generation_at_start = none;
  created_at = 10;
  updated_at = 20;
  completed_at = none;
  recovery_note = none;
  pending_signal = some cancel_requested;
}

abbrev implementing_row : Row
implementing_row = record {
  id = 1;
  workspace_id = 3;
  parent_task = none;
  objective = "fix the bug";
  state = "IMPLEMENTING";
  paused_from = none;
  plan_scope = [];
  budget = no_budget;
  index_generation_at_start = none;
  created_at_ms = 10;
  updated_at_ms = 20;
  completed_at_ms = none;
  recovery_note = none;
  pending_signal = some "CANCEL";
}

abbrev world : World Value
world = record {
  env = environment;
  tasks = implementing_row ∷ [];
  journal = [];
  events = [];
  reads = 0;
  drawn = 0;
}

implementing_task-Reads : Reads world 1 implementing_task
unfolding get state_from_text signal_from_text
implementing_task-Reads = refl

to_verifying : transition_refusal implementing_task verifying ≡ none
unfolding transition_refusal can_transition_to
to_verifying = refl

to_planning :
    transition_refusal implementing_task completed
    ≡ some (illegal_transition 1 implementing completed)
unfolding transition_refusal can_transition_to
to_planning = refl

get-transition_example :
    ((transition 1 verifying world).0 ≡ ok tt)
    × ((get 1 (transition 1 verifying world).1).0 ≡ ok (moved implementing_task verifying 100))
get-transition_example =
    get-transition 1 1 verifying world implementing_task implementing_task-Reads to_verifying

is_open : is_terminal implementing ≡ false
unfolding is_terminal
is_open = refl

not_paused : implementing ≢ paused
not_paused p = cc

pause_then_resume_example :
    ((transition 1 paused world).0 ≡ ok tt)
    × ((transition 1 cancelled (transition 1 paused world).1).0
        ≡ err (wrong_resume_target 1 implementing cancelled))
pause_then_resume_example =
    pause_then_resume 1 cancelled world implementing_task implementing_task-Reads is_open not_paused

abbrev crash_note : AgentState → String
crash_note s = "the host stopped"

recover_task_if_active_lem_example :
    let at_rest = is_stable_without_a_driver implementing in
    let run = recover_task_if_active 1 crash_note world in
    (run.0 ≡ ok (not at_rest))
    × Reads run.1 1 (
        if at_rest
        then implementing_task
        else recovered implementing_task (crash_note implementing) 101)
recover_task_if_active_lem_example =
    recover_task_if_active_lem 1 crash_note world implementing_task implementing_task-Reads

implementing_row-RowOk : RowOk implementing_row
unfolding state_from_text is_terminal
implementing_row-RowOk = (
  implementing,
  refl,
  record { paused_somewhere = λ p. cc; otherwise_not = λ p. refl; completed_when_terminal = refl },
)

abbrev calls : List (Call Value)
calls = transitions 1 paused ∷ signals 1 pause_requested ∷ transitions 1 completed ∷ []

abbrev paused_task : Task
paused_task = record (moved implementing_task paused 100) { pending_signal = some pause_requested }

paused_task-Reads : Reads (run world calls) 1 paused_task
unfolding run step transition get state_from_text transition_refusal can_transition_to
    set_pending_signal update append_journal project_events ◌>>=◌ set_state signal_from_text
    signal_to_text state_to_text tell_completed
paused_task-Reads = refl

run-IsWellFormed_example : IsWellFormed paused_task
run-IsWellFormed_example =
    run-IsWellFormed world calls 1 paused_task (implementing_row-RowOk, tt) paused_task-Reads

world-IsProjected : IsProjected world
world-IsProjected = record { events_of_journal = refl; numbered = tt }

run-IsProjected_example : IsProjected (run world calls)
run-IsProjected_example = run-IsProjected world calls world-IsProjected

reads_paused : state_from_text "PAUSED" ≡ some paused
unfolding state_from_text
reads_paused = refl

abbrev entry : ℕ → JournalEntryKind Value → JournalEntry Value
entry seq kind = record { seq = seq; task_id = 1; kind = kind; created_at = 100 }

abbrev issue_payload : Value
issue_payload = field "tool" (word "run_tests") (field "input" (flag true) null)

abbrev issued : JournalEntry Value
issued = entry 1 (effect_issued 8 9 "tool" issue_payload)

abbrev pending : PendingToolCall Value
pending = record { effect_id = 8; step_id = 9; tool = "run_tests"; input = flag true }

abbrev asked : JournalEntry Value
asked = entry 2 (effect_completed 8 9 "permission_ask" null)

abbrev noted_entry : JournalEntry Value
noted_entry = entry 3 (recovery_note "the host stopped")

issued_reads : issued_call issued.kind ≡ some pending
issued_reads = refl

issued_is_last : last_issued (issued ∷ []) ≡ some (pending, [])
unfolding last_issued
issued_is_last = refl

abbrev answered : JournalEntry Value
answered = entry 4 (effect_completed 10 9 "model_completion" null)

implementing_row-Distinct : Distinct world.tasks
implementing_row-Distinct = (refl, tt)

-- Paused where it stood, with the note, and the cancel request still waiting.
abbrev task_at_rest : Task
task_at_rest = recovered implementing_task "the host stopped" 101

task_at_rest-Reads : Reads (recover_incomplete_tasks crash_note world).1 1 task_at_rest
unfolding recover_incomplete_tasks recover_rows recover_row recover_task transition get
    state_from_text transition_refusal can_transition_to set_pending_signal update append_journal
    project_events ◌>>=◌ set_state signal_from_text signal_to_text state_to_text tell_completed
    is_stable_without_a_driver
task_at_rest-Reads = refl

recover_incomplete_tasks-at_rest_example :
    ((ids : List ℕ) × ((recover_incomplete_tasks crash_note world).0 ≡ ok ids))
    × (is_stable_without_a_driver task_at_rest.state ≡ true)
recover_incomplete_tasks-at_rest_example =
    recover_incomplete_tasks-at_rest crash_note world 1 task_at_rest implementing_row-Distinct
      task_at_rest-Reads
