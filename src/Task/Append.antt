-- ===== src/Task/Append.antt =====
-- The journal and its projection into events: `append_journal` and `project_events` of
-- crates/valyria-task/src/manager.rs.
use valyria.Common.{
  ℕ, suc, Bool, false, String, Option, none, some, List, [], ◌∷◌, ◌++◌, length, map, unwrap_or,
  string_eq, ◌||◌, ◌==◌, nat_eq, if◌then◌else◌,
}
use valyria.State.{AgentState, paused, completed, failed, display, state_eq}
use valyria.Task.Types.{
  Json, JournalEntryKind, task_created, state_changed, effect_issued, effect_completed,
  recovery_note, JournalEntry, Event, EventKind,
}
use valyria.Task.Kinds
use valyria.Task.World.{Exec, pure, gets, modify, now, ◌>>=◌, ◌>>◌}

module _ {V : Type 0} ⦃j : Json V⦄ where
  abbrev empty_object : V
  empty_object = j.object []

  abbrev terminal_event : AgentState → List (EventKind × V)
  terminal_event completed = (EventKind.task_completed, empty_object) ∷ []
  terminal_event failed = (EventKind.task_failed, empty_object) ∷ []
  terminal_event paused = (EventKind.task_paused, empty_object) ∷ []
  terminal_event _ = []

  abbrev issued_events : String → V → List (EventKind × V)
  issued_events effect_kind payload =
      if effect_kind == Kinds.model_call
      then (EventKind.model_started, payload) ∷ []
      else if effect_kind == Kinds.tool
      then (EventKind.tool_started, payload) ∷ []
      else if effect_kind == Kinds.verify
      then (EventKind.test_started, payload) ∷ []
      else if effect_kind == Kinds.plan_accepted
      then (EventKind.plan_created, payload) ∷ []
      else []

  abbrev passed : Option V → Bool
  passed none = false
  passed (some v) = unwrap_or false (j.as_bool v)

  abbrev completed_events : String → V → List (EventKind × V)
  completed_events outcome_kind payload =
      if outcome_kind == Kinds.model_completion
      then (EventKind.model_completed, payload) ∷ []
      else if outcome_kind == Kinds.context_retrieved
      then (EventKind.context_retrieved, payload) ∷ []
      else if outcome_kind == Kinds.plan_checkpoint
      then (EventKind.plan_checkpoint, payload) ∷ []
      else if (outcome_kind == Kinds.tool_result) || (outcome_kind == Kinds.tool_denied)
      then (EventKind.tool_completed, payload) ∷ []
      else if outcome_kind == Kinds.permission_ask
      then (EventKind.approval_requested, payload) ∷ []
      else if outcome_kind == Kinds.verify_result
      then (EventKind.verification_evidence, payload)
        ∷ (
          if passed (j.get payload "passed") then EventKind.test_passed else EventKind.test_failed,
          payload,
        )
        ∷ []
      else if outcome_kind == Kinds.loop_detected
      then (EventKind.progress_stalled, payload) ∷ []
      else if outcome_kind == Kinds.plan_scope_expansion
      then (EventKind.approval_requested, payload) ∷ []
      else if outcome_kind == Kinds.plan_rollback
      then (EventKind.file_changed, payload) ∷ []
      else if outcome_kind == Kinds.subtask_started
      then (EventKind.subtask_started, payload) ∷ []
      else if outcome_kind == Kinds.subtask_completed
      then (EventKind.subtask_completed, payload) ∷ []
      else if outcome_kind == Kinds.artifact_published
      then (EventKind.artifact_published, payload) ∷ []
      else []

  -- The events that `project_events` emits for one journal entry, in order.
  unfoldable pub projections : JournalEntryKind V → List (EventKind × V)
  unfolding display
  projections task_created = (EventKind.task_started, empty_object) ∷ []
  projections (state_changed from to) =
      (
        EventKind.state_changed,
        j.object (("from", j.text (display from)) ∷ ("to", j.text (display to)) ∷ []),
      )
      ∷ terminal_event to
  projections (effect_issued effect_id step_id effect_kind payload) =
      issued_events effect_kind payload
  projections (effect_completed effect_id step_id outcome_kind payload) =
      completed_events outcome_kind payload
  projections (recovery_note note) = []

  abbrev pub event_for : ℕ → EventKind × V → Event V
  event_for task_id (kind, payload) = record { task_id = task_id; kind = kind; payload = payload }

  unfoldable pub project_events : ℕ → JournalEntryKind V → Exec V (Unit {0})
  unfolding projections ◌>>=◌
  project_events task_id kind =
      modify λ w. record w { events = w.events ++ map (event_for task_id) (projections kind) }

  -- The row's sequence number is the next one of the table.
  unfoldable pub append_journal : ℕ → JournalEntryKind V → Exec V (JournalEntry V)
  unfolding project_events ◌>>=◌
  append_journal id kind = do
    at ← now
    seq ← gets (λ w. suc (length w.journal))
    let entry = record_of seq at
    modify (λ w. record w { journal = w.journal ++ entry ∷ [] })
    project_events id kind
    pure entry
    where
      record_of : ℕ → ℕ → JournalEntry V
      record_of seq at = record { seq = seq; task_id = id; kind = kind; created_at = at }
