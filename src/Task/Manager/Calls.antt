-- ===== src/Task/Manager/Calls.antt =====
-- Sequences of calls of the task manager: crates/valyria-task/src/manager.rs. A call that fails
-- leaves what it wrote before it failed.
use valyria.Common.{ℕ, String, List, [], ◌∷◌}
use valyria.State.{AgentState}
use valyria.Task.Types.{Json, Budget, ControlSignal, JournalEntryKind}
use valyria.Task.World.{World}
use valyria.Task.Append.{append_journal}
use valyria.Task.Manager.{
  transition, create, create_child, set_pending_signal, recover_task_if_active,
}
use valyria.Task.Startup.{recover_incomplete_tasks}

pub data Call (V : Type 0) : Type 0 where
  creates : ℕ → String → Budget → Call V
  creates_child : ℕ → String → Budget → Call V
  transitions : ℕ → AgentState → Call V
  appends : ℕ → JournalEntryKind V → Call V
  signals : ℕ → ControlSignal → Call V
  recovers : ℕ → (AgentState → String) → Call V
  starts : (AgentState → String) → Call V

module _ {V : Type 0} ⦃j : Json V⦄ where
  unfoldable pub step : World V → Call V → World V
  unfolding create
  step w (creates workspace_id objective budget) = (create workspace_id objective budget w).1
  step w (creates_child id objective budget) = (create_child id objective budget w).1
  step w (transitions id to) = (transition id to w).1
  step w (appends id kind) = (append_journal id kind w).1
  step w (signals id signal) = (set_pending_signal id signal w).1
  step w (recovers id note) = (recover_task_if_active id note w).1
  step w (starts note) = (recover_incomplete_tasks note w).1

  unfoldable pub run : World V → List (Call V) → World V
  run w [] = w
  run w (c ∷ cs) = run (step w c) cs
