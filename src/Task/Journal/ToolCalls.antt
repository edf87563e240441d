-- ===== src/Task/Journal/ToolCalls.antt =====
-- What the journal says of tool calls and model calls as it grows: the queries of
-- crates/valyria-task/src/manager.rs over one more entry.
use valyria.Common.{
  ℕ, ◌+◌, ◌≡◌, refl, String, Option, none, some, List, [], ◌∷◌, ◌++◌, arith, length, length-append,
  filterb, ◌==◌, string_eq, nat_eq, if◌then◌else◌,
}
use valyria.Task.Types.{Json, JournalEntry, PendingToolCall}
use valyria.Task.Kinds
use valyria.Task.Journal.{
  is_model_completion, count_completions, count_model_calls, or_else, or_here, issued_call,
  last_issued, outcome_for, completion_outcome, last_unresolved_tool_call, pending_tool_call,
  interrupted_tool_call,
}

module _ {V : Type 0} where
  completion_outcome-append :
      (id : ℕ) (es : List (JournalEntry V)) (e : JournalEntry V)
      → completion_outcome id (es ++ e ∷ [])
        ≡ or_else (outcome_for id e.kind) (completion_outcome id es)
  unfolding completion_outcome
  completion_outcome-append id [] e = ground arith
  completion_outcome-append id (x ∷ es) e = ground (arith, completion_outcome-append id es e)

  abbrev completions : List (JournalEntry V) → ℕ
  completions es = length (filterb (λ e. is_model_completion e.kind) es)

  count_completions-append :
      (n i : ℕ) (es : List (JournalEntry V)) (e : JournalEntry V)
      → n ≡ i + length es
      → count_completions n i (es ++ e ∷ []) ≡ completions es
  unfolding count_completions
  count_completions-append n i [] e h = ground arith
  count_completions-append n i (x ∷ es) e h =
      ground (arith, count_completions-append n (i + 1) es e (omega arith))

  -- The model calls that count are the completions before the last entry; an empty journal has none.
  count_model_calls-append :
      (es : List (JournalEntry V)) (e : JournalEntry V)
      → (count_model_calls {V = V} [] ≡ 0) × (count_model_calls (es ++ e ∷ []) ≡ completions es)
  unfolding count_model_calls
  count_model_calls-append es e =
      (refl, count_completions-append _ 0 es e (omega (arith, length-append es (e ∷ []))))

module _ {V : Type 0} ⦃j : Json V⦄ where
  abbrev extend :
      JournalEntry V
      → Option (PendingToolCall V × List (JournalEntry V))
      → Option (PendingToolCall V × List (JournalEntry V))
  extend e none = none
  extend e (some (call, after)) = some (call, after ++ e ∷ [])

  last_issued_new :
      (es : List (JournalEntry V)) (e : JournalEntry V) (c : PendingToolCall V)
      → issued_call e.kind ≡ some c
      → last_issued (es ++ e ∷ []) ≡ some (c, [])
  unfolding last_issued
  last_issued_new [] e c h = rw h
  last_issued_new (x ∷ es) e c h = rw (last_issued_new es e c h)

  or_here-extend :
      (e : JournalEntry V) (found : Option (PendingToolCall V × List (JournalEntry V)))
      (here : Option (PendingToolCall V)) (es : List (JournalEntry V))
      → or_here (extend e found) here (es ++ e ∷ []) ≡ extend e (or_here found here es)
  or_here-extend e none none es = refl
  or_here-extend e none (some c) es = refl
  or_here-extend e (some found) here es = refl

  last_issued_other :
      (es : List (JournalEntry V)) (e : JournalEntry V)
      → issued_call e.kind ≡ none
      → last_issued (es ++ e ∷ []) ≡ extend e (last_issued es)
  unfolding last_issued
  last_issued_other [] e h = rw h
  last_issued_other (x ∷ es) e h =
      rw (last_issued_other es e h) (or_here-extend e (last_issued es) _ es)

  -- An entry that issues a readable tool call makes it the interrupted call, and no call waits for
  -- a permission.
  tool_call_issued :
      (es : List (JournalEntry V)) (e : JournalEntry V) (c : PendingToolCall V)
      → issued_call e.kind ≡ some c
      → (interrupted_tool_call (es ++ e ∷ []) ≡ some c) × (pending_tool_call (es ++ e ∷ []) ≡ none)
  unfolding interrupted_tool_call pending_tool_call last_unresolved_tool_call
  tool_call_issued es e c h = rw (last_issued_new es e c h) (refl, refl)

  -- If the last issued call is `c` and an entry that issues no call completes it, then no call is
  -- interrupted, and `c` waits for a permission exactly if the outcome is `permission_ask`,
  -- whatever the earlier outcomes were.
  tool_call_completed :
      (es : List (JournalEntry V)) (e : JournalEntry V) (c : PendingToolCall V)
      (after : List (JournalEntry V)) (outcome : String)
      → last_issued es ≡ some (c, after)
      → issued_call e.kind ≡ none
      → outcome_for c.effect_id e.kind ≡ some outcome
      → (interrupted_tool_call (es ++ e ∷ []) ≡ none)
        × (pending_tool_call (es ++ e ∷ [])
            ≡ (if outcome == Kinds.permission_ask then some c else none))
  unfolding interrupted_tool_call pending_tool_call last_unresolved_tool_call
  tool_call_completed es e c after outcome l i o =
      rw (last_issued_other es e i, l)
        (rw (completion_outcome-append c.effect_id after e, o) (refl, refl))

  -- An entry that neither issues a call nor completes the last one changes neither answer.
  tool_call_untouched :
      (es : List (JournalEntry V)) (e : JournalEntry V) (c : PendingToolCall V)
      (after : List (JournalEntry V))
      → last_issued es ≡ some (c, after)
      → issued_call e.kind ≡ none
      → outcome_for c.effect_id e.kind ≡ none
      → (interrupted_tool_call (es ++ e ∷ []) ≡ interrupted_tool_call es)
        × (pending_tool_call (es ++ e ∷ []) ≡ pending_tool_call es)
  unfolding interrupted_tool_call pending_tool_call last_unresolved_tool_call
  tool_call_untouched es e c after l i o =
      rw (last_issued_other es e i, l)
        (rw (completion_outcome-append c.effect_id after e, o) (refl, refl))
