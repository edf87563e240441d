-- ===== src/Task/Rows.antt =====
-- Reading a task from its row: `get` of crates/valyria-task/src/manager.rs.
use valyria.Common.{◌≡◌, refl, ℕ, Option, none, some, string_eq, nat_eq}
use valyria.State.{AgentState, state_eq}
use valyria.Task.Types.{Task, not_found, corrupt_state}
use valyria.Task.Codec.{state_from_text, signal_from_text}
use valyria.Task.World.{World, Row, Result, ok, err, Exec, find_row}

abbrev pub and_then {ℓ κ} : {A : Type ℓ} {B : Type κ} → Option A → (A → Option B) → Option B
and_then none f = none
and_then (some a) f = f a

-- The row as a task, once its state has been read.
abbrev pub task_of : Row → AgentState → Task
task_of r state = record {
  id = r.id;
  workspace_id = r.workspace_id;
  parent_task = r.parent_task;
  objective = r.objective;
  state = state;
  paused_from = and_then r.paused_from state_from_text;
  plan_scope = r.plan_scope;
  budget = r.budget;
  index_generation_at_start = r.index_generation_at_start;
  created_at = r.created_at_ms;
  updated_at = r.updated_at_ms;
  completed_at = r.completed_at_ms;
  recovery_note = r.recovery_note;
  pending_signal = and_then r.pending_signal signal_from_text;
}

abbrev pub decode_state : Row → Option AgentState → Result Task
decode_state r none = err (corrupt_state r.id r.state)
decode_state r (some state) = ok (task_of r state)

abbrev pub decode : ℕ → Option Row → Result Task
decode id none = err (not_found id)
decode id (some r) = decode_state r (state_from_text r.state)

module _ {V : Type 0} where
  unfoldable pub get : ℕ → Exec V Task
  get id w = (decode id (find_row id w.tasks), w)

  pub world-get : (id : ℕ) (w : World V) → (get id w).1 ≡ w
  unfolding get
  world-get id w = refl

  -- The row's task, if there is a row whose state can be read.
  abbrev pub Reads : World V → ℕ → Task → Type 0
  Reads w id task = (get id w).0 ≡ ok task
