-- ===== src/Task/Types.antt =====
-- The domain types: crates/valyria-task/src/types.rs, the errors of error.rs, and the event kinds
-- of crates/valyria-events/src/kind.rs. Ids, hashes, sequence numbers and timestamps are numbers.
-- `V` is the type of JSON values, whose library is outside the repository: `Json` has the calls
-- that the manager makes of it.
use valyria.Common.{ℕ, Bool, String, Option, List, string_eq}
use valyria.State.{AgentState}

pub record Json (V : Type 0) : Type 0 where
  pub object : List (String × V) → V
  pub text : String → V
  pub get : V → String → Option V
  pub as_str : V → Option String
  pub as_bool : V → Option Bool

pub data EventKind : Type 0 where
  task_started plan_created context_retrieved model_started : EventKind
  model_completed tool_started tool_completed file_changed : EventKind
  test_started test_passed test_failed approval_requested : EventKind
  task_paused task_completed task_failed state_changed : EventKind
  progress_stalled external_change_detected verification_evidence memory_written : EventKind
  resource_pressure plan_checkpoint model_install_progress model_install_completed : EventKind
  model_install_failed engine_install_progress engine_install_completed engine_install_failed :
      EventKind
  model_server_starting model_server_ready model_server_failed model_server_stopped : EventKind
  subtask_started subtask_completed artifact_published model_loaded : EventKind
  model_evicted : EventKind

pub record Budget : Type 0 where
  pub max_steps : Option ℕ
  pub max_wall_ms : Option ℕ
  pub max_tokens : Option ℕ

pub data ControlSignal : Type 0 where
  pause_requested cancel_requested : ControlSignal

pub record Task : Type 0 where
  pub id : ℕ
  pub workspace_id : ℕ
  pub parent_task : Option ℕ
  pub objective : String
  pub state : AgentState
  pub paused_from : Option AgentState
  pub plan_scope : List String
  pub budget : Budget
  pub index_generation_at_start : Option ℕ
  pub created_at : ℕ
  pub updated_at : ℕ
  pub completed_at : Option ℕ
  pub recovery_note : Option String
  pub pending_signal : Option ControlSignal

pub data JournalEntryKind (V : Type 0) : Type 0 where
  task_created : JournalEntryKind V
  state_changed : AgentState → AgentState → JournalEntryKind V
  effect_issued : ℕ → ℕ → String → V → JournalEntryKind V
  effect_completed : ℕ → ℕ → String → V → JournalEntryKind V
  recovery_note : String → JournalEntryKind V

pub record JournalEntry (V : Type 0) : Type 0 where
  pub seq : ℕ
  pub task_id : ℕ
  pub kind : JournalEntryKind V
  pub created_at : ℕ

pub record PendingToolCall (V : Type 0) : Type 0 where
  pub effect_id : ℕ
  pub step_id : ℕ
  pub tool : String
  pub input : V

-- `NewEvent` as the manager builds it: always for one task, with no span.
pub record Event (V : Type 0) : Type 0 where
  pub task_id : ℕ
  pub kind : EventKind
  pub payload : V

pub data TaskError : Type 0 where
  not_found : ℕ → TaskError
  corrupt_state : ℕ → String → TaskError
  illegal_transition : ℕ → AgentState → AgentState → TaskError
  wrong_resume_target : ℕ → AgentState → AgentState → TaskError
