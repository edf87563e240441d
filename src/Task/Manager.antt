-- ===== src/Task/Manager.antt =====
-- `TaskManager`: crates/valyria-task/src/manager.rs. Each async method is an action on a `World`;
-- the calls of one method are its steps, in the source's order.
pub mod Transition
pub mod Lifecycle
pub mod Recovery
pub mod Calls
pub mod WellFormed
pub mod Soundness
pub mod Projection
use valyria.Common.{
  ℕ, suc, ◌+◌, Bool, true, false, not, String, Option, none, some, List, [], ◌∷◌, ◌++◌, length, map,
  unwrap_or, string_eq, ◌||◌, ◌==◌, nat_eq, filterb, if◌then◌else◌,
}
use valyria.State.{
  AgentState, idle, paused, completed, failed, waiting_for_permission, waiting_for_user,
  is_terminal, can_transition_to, display, state_eq,
}
use valyria.Task.Types.{
  Json, Budget, ControlSignal, pause_requested, cancel_requested, Task, JournalEntryKind,
  task_created, state_changed, effect_issued, effect_completed, recovery_note, JournalEntry, Event,
  EventKind, TaskError, not_found, corrupt_state, illegal_transition, wrong_resume_target,
}
use valyria.Task.Kinds
use valyria.Task.Codec.{state_to_text, state_from_text, signal_to_text, signal_from_text}
use valyria.Task.World.{
  Row, World, Result, ok, err, Exec, pure, lift, gets, modify, now, new_id, ◌>>=◌, ◌>>◌, find_row,
  update_row,
}
use valyria.Task.Rows.{task_of, get}
use valyria.Task.Append.{append_journal}

unfoldable pub is_stable_without_a_driver : AgentState → Bool
unfolding is_terminal
is_stable_without_a_driver paused = true
is_stable_without_a_driver waiting_for_permission = true
is_stable_without_a_driver waiting_for_user = true
is_stable_without_a_driver state = is_terminal state

-- The refusals of `transition`, in the order of its tests. `get` answers with the row of the id that
-- it was asked for, so `task.id` is that id.
abbrev refusal_by_table : Task → AgentState → Option TaskError
refusal_by_table task to =
    if can_transition_to task.state to
    then none
    else some (illegal_transition task.id task.state to)

abbrev refusal_of_resume : Task → AgentState → Option AgentState → Option TaskError
refusal_of_resume task to (some expected) =
    if expected == to
    then refusal_by_table task to
    else some (wrong_resume_target task.id expected to)
refusal_of_resume task to none = some (illegal_transition task.id task.state to)

unfoldable pub transition_refusal : Task → AgentState → Option TaskError
transition_refusal task to =
    if task.state == paused
    then refusal_of_resume task to task.paused_from
    else refusal_by_table task to

abbrev or_ok : Option TaskError → Result (Unit {0})
or_ok none = ok tt
or_ok (some e) = err e

-- The columns that `transition` sets.
unfoldable pub set_state : Task → AgentState → ℕ → Row → Row
unfolding state_to_text is_terminal
set_state task to at r = record r {
  state = state_to_text to;
  paused_from = if to == paused then some (state_to_text task.state) else none;
  updated_at_ms = at;
  completed_at_ms = if is_terminal to then some at else task.completed_at;
  pending_signal = none;
}

module _ {V : Type 0} where
  unfoldable pub update : ℕ → (Row → Row) → Exec V (Unit {0})
  unfolding ◌>>=◌
  update id f = modify λ w. record w { tasks = update_row id f w.tasks }

module _ {V : Type 0} ⦃j : Json V⦄ where
  -- The entry on the parent's journal about one of its children.
  unfoldable pub tell_parent : Option ℕ → String → V → Exec V (Unit {0})
  unfolding append_journal
  tell_parent none outcome_kind payload = pure tt
  tell_parent (some parent_id) outcome_kind payload = do
    effect_id ← new_id
    step_id ← new_id
    append_journal parent_id (effect_completed effect_id step_id outcome_kind payload)
    pure tt

  unfoldable pub tell_completed : ℕ → AgentState → Option ℕ → Exec V (Unit {0})
  unfolding ◌>>=◌
  tell_completed id to parent = do
    child ← gets (λ w. w.env.id_text id)
    if is_terminal to
        then tell_parent parent Kinds.subtask_completed
            (j.object (("child_task_id", j.text child) ∷ ("final_state", j.text (display to)) ∷ []))
        else pure tt

  unfoldable pub transition : ℕ → AgentState → Exec V (Unit {0})
  unfolding ◌>>=◌ update append_journal
  transition id to = do
    task ← get id
    lift (or_ok (transition_refusal task to))
    at ← now
    update id (set_state task to at)
    append_journal id (state_changed task.state to)
    tell_completed id to task.parent_task

  unfoldable pub create_with_parent : ℕ → Option ℕ → String → Budget → Exec V Task
  unfolding ◌>>=◌ append_journal
  create_with_parent workspace_id parent_task objective budget = do
    id ← new_id
    at ← now
    let row = new_row id at
    modify (λ w. record w { tasks = w.tasks ++ row ∷ [] })
    append_journal id task_created
    child ← gets (λ w. w.env.id_text id)
    tell_parent parent_task Kinds.subtask_started
        (j.object (("child_task_id", j.text child) ∷ ("objective", j.text objective) ∷ []))
    pure (task_of row idle)
    where
      new_row : ℕ → ℕ → Row
      new_row id at = record {
        id = id;
        workspace_id = workspace_id;
        parent_task = parent_task;
        objective = objective;
        state = state_to_text idle;
        paused_from = none;
        plan_scope = [];
        budget = budget;
        index_generation_at_start = none;
        created_at_ms = at;
        updated_at_ms = at;
        completed_at_ms = none;
        recovery_note = none;
        pending_signal = none;
      }

  unfoldable pub create : ℕ → String → Budget → Exec V Task
  create workspace_id objective budget = create_with_parent workspace_id none objective budget

  unfoldable pub create_child : ℕ → String → Budget → Exec V Task
  unfolding ◌>>=◌
  create_child parent_id objective budget = do
    parent ← get parent_id
    create_with_parent parent.workspace_id (some parent_id) objective budget

  unfoldable pub set_pending_signal : ℕ → ControlSignal → Exec V (Unit {0})
  unfolding ◌>>=◌ update
  set_pending_signal id signal = do
    get id
    update id (λ r. record r { pending_signal = some (signal_to_text signal) })

  abbrev pub restore : ℕ → Option ControlSignal → Exec V (Unit {0})
  restore id none = pure tt
  restore id (some signal) = set_pending_signal id signal

  unfoldable pub recover_task : ℕ → String → Exec V (Unit {0})
  unfolding ◌>>=◌ update append_journal
  recover_task id note = do
    task ← get id
    update id (λ r. record r { recovery_note = some note })
    append_journal id (recovery_note note)
    transition id paused
    restore id task.pending_signal

  -- The note is `"recovered on resume: task was in {state} when last observed"`.
  unfoldable pub recover_task_if_active : ℕ → (AgentState → String) → Exec V Bool
  unfolding ◌>>=◌
  recover_task_if_active id note = do
    task ← get id
    if is_stable_without_a_driver task.state
        then pure false
        else (do recover_task id (note task.state); pure true)
