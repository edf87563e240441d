-- ===== src/Task/Journal.antt =====
-- Questions that the manager answers from the journal alone: crates/valyria-task/src/manager.rs,
-- `journal_since`, `count_model_calls`, `last_unresolved_tool_call` and its two uses.
pub mod ToolCalls
use valyria.Common.{
  ℕ, suc, ◌+◌, ◌-◌, Bool, true, false, not, ◌&&◌, String, Option, none, some, List, [], ◌∷◌, length,
  filterb, ◌==◌, ltb, nat_eq, string_eq, if◌then◌else◌,
}
use valyria.Task.Types.{
  Json, JournalEntryKind, effect_issued, effect_completed, JournalEntry, PendingToolCall,
}
use valyria.Task.Kinds

module _ {V : Type 0} where
  -- `SELECT … WHERE task_id = ? AND seq > ? ORDER BY seq ASC`: rows are appended in that order.
  unfoldable pub journal_since : ℕ → ℕ → List (JournalEntry V) → List (JournalEntry V)
  journal_since id since = filterb λ e. (e.task_id == id) && ltb since e.seq

  abbrev pub is_model_completion : JournalEntryKind V → Bool
  is_model_completion (effect_completed eid sid outcome_kind payload) =
      outcome_kind == Kinds.model_completion
  is_model_completion _ = false

  -- The enumerated filter, from index `i` on.
  count_completions : ℕ → ℕ → List (JournalEntry V) → ℕ
  count_completions last_index i [] = 0
  count_completions last_index i (e ∷ es) =
      let rest = count_completions last_index (i + 1) es in
      if not (i == last_index) && is_model_completion e.kind then suc rest else rest

  unfoldable pub count_model_calls : List (JournalEntry V) → ℕ
  unfolding count_completions
  count_model_calls entries = count_completions (length entries - 1) 0 entries

  abbrev call_of : ℕ → ℕ → Option String → Option V → Option (PendingToolCall V)
  call_of eid sid (some tool) (some input) =
      some (record { effect_id = eid; step_id = sid; tool = tool; input = input })
  call_of eid sid _ _ = none

abbrev pub or_else {ℓ} : {A : Type ℓ} → Option A → Option A → Option A
or_else (some a) b = some a
or_else none b = b

module _ {V : Type 0} ⦃j : Json V⦄ where
  abbrev text_of : Option V → Option String
  text_of none = none
  text_of (some v) = j.as_str v

  -- The tool call that an entry issues, if it is one that can be read.
  abbrev pub issued_call : JournalEntryKind V → Option (PendingToolCall V)
  issued_call (effect_issued eid sid effect_kind payload) =
      if effect_kind == Kinds.tool
      then call_of eid sid (text_of (j.get payload "tool")) (j.get payload "input")
      else none
  issued_call _ = none

  abbrev pub or_here :
      Option (PendingToolCall V × List (JournalEntry V))
      → Option (PendingToolCall V)
      → List (JournalEntry V)
      → Option (PendingToolCall V × List (JournalEntry V))
  or_here (some found) here after = some found
  or_here none (some call) after = some (call, after)
  or_here none none after = none

  -- The reverse search: the last entry that issues a tool call, with the entries after it.
  unfoldable pub last_issued :
      List (JournalEntry V) → Option (PendingToolCall V × List (JournalEntry V))
  last_issued [] = none
  last_issued (e ∷ es) = or_here (last_issued es) (issued_call e.kind) es

module _ {V : Type 0} where
  abbrev pub outcome_for : ℕ → JournalEntryKind V → Option String
  outcome_for effect_id (effect_completed eid sid outcome_kind payload) =
      if eid == effect_id then some outcome_kind else none
  outcome_for effect_id _ = none

  -- The outcome of the last completion of an effect.
  unfoldable pub completion_outcome : ℕ → List (JournalEntry V) → Option String
  completion_outcome effect_id [] = none
  completion_outcome effect_id (e ∷ es) =
      or_else (completion_outcome effect_id es) (outcome_for effect_id e.kind)

abbrev pub outcome_matches : Option String → Option String → Bool
outcome_matches none none = true
outcome_matches (some outcome) (some required) = outcome == required
outcome_matches _ _ = false

module _ {V : Type 0} ⦃j : Json V⦄ where
  abbrev pub unresolved :
      Option String
      → Option (PendingToolCall V × List (JournalEntry V))
      → Option (PendingToolCall V)
  unresolved required none = none
  unresolved required (some (call, after)) =
      if outcome_matches (completion_outcome call.effect_id after) required then some call else none

  unfoldable pub last_unresolved_tool_call :
      Option String → List (JournalEntry V) → Option (PendingToolCall V)
  unfolding last_issued completion_outcome
  last_unresolved_tool_call required entries = unresolved required (last_issued entries)

  unfoldable pub pending_tool_call : List (JournalEntry V) → Option (PendingToolCall V)
  pending_tool_call = last_unresolved_tool_call (some Kinds.permission_ask)

  unfoldable pub interrupted_tool_call : List (JournalEntry V) → Option (PendingToolCall V)
  interrupted_tool_call = last_unresolved_tool_call none
