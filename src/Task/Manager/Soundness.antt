-- ===== src/Task/Manager/Soundness.antt =====
-- The invariant of the tasks table over every sequence of calls of
-- crates/valyria-task/src/manager.rs.
use valyria.Common.{ℕ, refl, String, Option, none, some, List, [], ◌∷◌, ◌++◌, nat_eq, All-append}
use valyria.State.{AgentState, state_eq}
use valyria.Task.Types.{Json, Budget, Task, ControlSignal, JournalEntryKind}
use valyria.Task.World.{Exec, Row, World, now, new_id, modify}
use valyria.Task.Rows.{Reads, get}
use valyria.Task.Append.{append_journal}
use valyria.Task.Manager.{
  update, transition, set_pending_signal, restore, create_with_parent, create_child, recover_task,
  recover_task_if_active, tell_parent, is_stable_without_a_driver,
}
use valyria.Task.Manager.Calls.{
  Call, creates, creates_child, transitions, appends, signals, recovers, starts, step, run,
}
use valyria.Task.Keeps.{Keeps, Keeps-branch, Keeps-bind, Keeps-pure, keeps_rules}
use valyria.Task.Manager.WellFormed.{
  IsWellFormed, RowOk, IsSound, All-update_row, label_RowOk, new_RowOk, Reads-IsWellFormed,
  transition-IsSound,
}
use valyria.Task.Startup.{recover_row, recover_rows, recover_incomplete_tasks}
use valyria.Task.Codec.{state_from_text}

module _ {V : Type 0} ⦃j : Json V⦄ where
  transition-Keeps : (id : ℕ) (to : AgentState) → Keeps {V = V} IsSound (transition id to)
  transition-Keeps id to = record { holds = λ w s. transition-IsSound id to w s }

  get-Keeps : (id : ℕ) → Keeps IsSound (get {V = V} id)
  unfolding get
  get-Keeps id = record { holds = λ w s. s }

  now-Keeps : Keeps IsSound (now {V = V})
  unfolding now
  now-Keeps = record { holds = λ w s. s }

  new_id-Keeps : Keeps IsSound (new_id {V = V})
  unfolding new_id
  new_id-Keeps = record { holds = λ w s. s }

  append_journal-Keeps :
      (id : ℕ) (kind : JournalEntryKind V) → Keeps IsSound (append_journal id kind)
  unfolding append_journal
  append_journal-Keeps id kind = record { holds = λ w s. s }

  signal-Keeps :
      (id : ℕ) (x : String)
      → Keeps IsSound (update {V = V} id (λ r. record r { pending_signal = some x }))
  unfolding update
  signal-Keeps id x = record {
    holds = λ w s. All-update_row id _ w.tasks (λ r k. label_RowOk r r.recovery_note (some x) k) s;
  }

  note-Keeps :
      (id : ℕ) (note : String)
      → Keeps IsSound (update {V = V} id (λ r. record r { recovery_note = some note }))
  unfolding update
  note-Keeps id note = record {
    holds =
        λ w s. All-update_row id _ w.tasks (λ r k. label_RowOk r (some note) r.pending_signal k) s;
  }

  insert-Keeps :
      (row : Row)
      → RowOk row
      → Keeps IsSound (modify {V = V} (λ w. record w { tasks = w.tasks ++ row ∷ [] }))
  unfolding modify
  insert-Keeps row k = record { holds = λ w s. All-append RowOk w.tasks (row ∷ []) s (k, tt) }

  ruleset writes = (
    keeps_rules, transition-Keeps, get-Keeps, now-Keeps, new_id-Keeps, append_journal-Keeps,
    signal-Keeps, note-Keeps, insert-Keeps, new_RowOk, refl,
  )

  tell_parent-Keeps : (o : Option ℕ) (kind : String) (v : V) → Keeps IsSound (tell_parent o kind v)
  unfolding tell_parent
  tell_parent-Keeps none kind v = search writes
  tell_parent-Keeps (some p) kind v = search writes depth 8

  create_with_parent-Keeps :
      (ws : ℕ) (o : Option ℕ) (objective : String) (b : Budget)
      → Keeps {V = V} IsSound (create_with_parent ws o objective b)
  unfolding create_with_parent
  create_with_parent-Keeps ws o objective b = search (writes, tell_parent-Keeps) depth 8

  set_pending_signal-Keeps :
      (id : ℕ) (x : ControlSignal) → Keeps {V = V} IsSound (set_pending_signal id x)
  unfolding set_pending_signal
  set_pending_signal-Keeps id x = search writes

  restore-Keeps : (id : ℕ) (o : Option ControlSignal) → Keeps {V = V} IsSound (restore id o)
  restore-Keeps id none = search writes
  restore-Keeps id (some x) = set_pending_signal-Keeps id x

  recover_task-Keeps : (id : ℕ) (note : String) → Keeps {V = V} IsSound (recover_task id note)
  unfolding recover_task
  recover_task-Keeps id note = search (writes, restore-Keeps) depth 8

  recover_task_if_active-Keeps :
      (id : ℕ) (note : AgentState → String) → Keeps {V = V} IsSound (recover_task_if_active id note)
  unfolding recover_task_if_active
  recover_task_if_active-Keeps id note = search (writes, recover_task-Keeps) depth 8

  recover_row-Keeps :
      (note : AgentState → String) (r : Row) (o : Option AgentState) (later : Exec V (List ℕ))
      → Keeps IsSound later
      → Keeps IsSound (recover_row note r o later)
  unfolding recover_row
  recover_row-Keeps note r none later k = k
  recover_row-Keeps note r (some s) later k =
      Keeps-branch (is_stable_without_a_driver s) later _ k (
        Keeps-bind (recover_task r.id (note s)) _ (recover_task-Keeps r.id (note s))
          (λ u. Keeps-bind later _ k (λ ids. Keeps-pure (r.id ∷ ids))))

  recover_rows-Keeps :
      (note : AgentState → String) (rs : List Row) → Keeps {V = V} IsSound (recover_rows note rs)
  unfolding recover_rows
  recover_rows-Keeps note [] = search writes
  recover_rows-Keeps note (r ∷ rs) =
      recover_row-Keeps note r (state_from_text r.state) (recover_rows note rs)
        (recover_rows-Keeps note rs)

  recover_incomplete_tasks-Keeps :
      (note : AgentState → String) → Keeps {V = V} IsSound (recover_incomplete_tasks note)
  unfolding recover_incomplete_tasks
  recover_incomplete_tasks-Keeps note = search (writes, recover_rows-Keeps)

  step-IsSound : (w : World V) (c : Call V) → IsSound w → IsSound (step w c)
  unfolding step create_child
  step-IsSound w (creates ws o b) s = (create_with_parent-Keeps ws none o b).holds w s
  step-IsSound w (creates_child id o b) s =
      (Keeps-bind (get id) _ (get-Keeps id)
          (λ t. create_with_parent-Keeps t.workspace_id (some id) o b)).holds
        w s
  step-IsSound w (transitions id to) s = transition-IsSound id to w s
  step-IsSound w (appends id kind) s = (append_journal-Keeps id kind).holds w s
  step-IsSound w (signals id x) s = (set_pending_signal-Keeps id x).holds w s
  step-IsSound w (recovers id note) s = (recover_task_if_active-Keeps id note).holds w s
  step-IsSound w (starts note) s = (recover_incomplete_tasks-Keeps note).holds w s

  -- After any sequence of calls, failing ones included, from a table of well-formed rows, every
  -- task that can be read is well formed: it remembers an open state that it was paused from
  -- exactly while it is paused, and it has a completion time exactly when its state is terminal.
  pub run-IsWellFormed :
      (w : World V) (cs : List (Call V)) (id : ℕ) (task : Task)
      → IsSound w
      → Reads (run w cs) id task
      → IsWellFormed task
  unfolding run
  run-IsWellFormed w [] id task s h = Reads-IsWellFormed w id task s h
  run-IsWellFormed w (c ∷ cs) id task s h =
      run-IsWellFormed (step w c) cs id task (step-IsSound w c s) h
