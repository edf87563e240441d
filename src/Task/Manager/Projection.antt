-- ===== src/Task/Manager/Projection.antt =====
-- Events are projections of the journal and never a mechanism beside it: the invariant that
-- `append_journal` of crates/valyria-task/src/manager.rs keeps, over every operation.
use valyria.Common.{
  ℕ, suc, ◌+◌, ◌≡◌, ap, sym, String, Option, none, some, List, [], ◌∷◌, ◌++◌, arith, map, length,
  append_assoc, append-nil,
}
use valyria.State.{AgentState}
use valyria.Task.Types.{Json, Budget, ControlSignal, JournalEntryKind, JournalEntry, Event}
use valyria.Task.World.{Exec, Row, World, now, new_id, modify}
use valyria.Task.Keeps.{Keeps, Keeps-branch, Keeps-bind, Keeps-pure, keeps_rules}
use valyria.Task.Rows.{get}
use valyria.Task.Append.{projections, event_for, append_journal}
use valyria.Task.Manager.{
  update, tell_parent, tell_completed, transition, create_with_parent, create_child,
  set_pending_signal, restore, recover_task, recover_task_if_active, is_stable_without_a_driver,
}
use valyria.Task.Manager.Calls.{
  Call, creates, creates_child, transitions, appends, signals, recovers, starts, step, run,
}
use valyria.Task.Startup.{recover_row, recover_rows, recover_incomplete_tasks}
use valyria.Task.Codec.{state_from_text}

module _ {V : Type 0} ⦃j : Json V⦄ where
  -- The events that a whole journal projects to, in order.
  abbrev pub projected : List (JournalEntry V) → List (Event V)
  projected [] = []
  projected (e ∷ es) = map (event_for e.task_id) (projections e.kind) ++ projected es

  projected-append :
      (es : List (JournalEntry V)) (e : JournalEntry V)
      → projected (es ++ e ∷ []) ≡ projected es ++ map (event_for e.task_id) (projections e.kind)
  projected-append [] e = append-nil _
  projected-append (x ∷ es) e = rw (projected-append es e) (sym (append_assoc _ (projected es) _))

  -- The entries carry consecutive sequence numbers after `n`.
  abbrev pub NumberedFrom : ℕ → List (JournalEntry V) → Type 0
  NumberedFrom n [] = Unit {0}
  NumberedFrom n (e ∷ es) = (e.seq ≡ suc n) × NumberedFrom (suc n) es

  NumberedFrom-append :
      (n : ℕ) (es : List (JournalEntry V)) (e : JournalEntry V)
      → NumberedFrom n es
      → e.seq ≡ suc (n + length es)
      → NumberedFrom n (es ++ e ∷ [])
  NumberedFrom-append n [] e h s = (omega arith, tt)
  NumberedFrom-append n (x ∷ es) e h s = (h.0, NumberedFrom-append (suc n) es e h.1 (omega arith))

  pub record IsProjected (w : World V) : Type 0 where
    pub events_of_journal : w.events ≡ projected w.journal
    pub numbered : NumberedFrom 0 w.journal

  append_journal-IsProjected :
      (id : ℕ) (kind : JournalEntryKind V) → Keeps IsProjected (append_journal id kind)
  unfolding append_journal
  append_journal-IsProjected id kind = record {
    holds = λ w p. record {
      events_of_journal =
          rw (projected-append w.journal)
            (ap (λ es. es ++ map (event_for id) (projections kind)) p.events_of_journal);
      numbered = NumberedFrom-append 0 w.journal _ p.numbered (omega arith);
    };
  }

  now-IsProjected : Keeps IsProjected (now {V = V})
  unfolding now
  now-IsProjected = record {
    holds = λ w p. record { events_of_journal = p.events_of_journal; numbered = p.numbered };
  }

  new_id-IsProjected : Keeps IsProjected (new_id {V = V})
  unfolding new_id
  new_id-IsProjected = record {
    holds = λ w p. record { events_of_journal = p.events_of_journal; numbered = p.numbered };
  }

  update-IsProjected : (id : ℕ) (f : Row → Row) → Keeps IsProjected (update {V = V} id f)
  unfolding update
  update-IsProjected id f = record {
    holds = λ w p. record { events_of_journal = p.events_of_journal; numbered = p.numbered };
  }

  insert-IsProjected :
      (row : Row)
      → Keeps IsProjected (modify {V = V} (λ w. record w { tasks = w.tasks ++ row ∷ [] }))
  unfolding modify
  insert-IsProjected row = record {
    holds = λ w p. record { events_of_journal = p.events_of_journal; numbered = p.numbered };
  }

  get-IsProjected : (id : ℕ) → Keeps IsProjected (get {V = V} id)
  unfolding get
  get-IsProjected id = record { holds = λ w p. p }

  ruleset steps = (
    keeps_rules, append_journal-IsProjected, now-IsProjected, new_id-IsProjected,
    update-IsProjected, insert-IsProjected, get-IsProjected,
  )

  tell_parent-IsProjected :
      (o : Option ℕ) (kind : String) (v : V) → Keeps IsProjected (tell_parent o kind v)
  unfolding tell_parent
  tell_parent-IsProjected none kind v = search steps
  tell_parent-IsProjected (some p) kind v = search steps depth 8

  tell_completed-IsProjected :
      (id : ℕ) (to : AgentState) (o : Option ℕ) → Keeps IsProjected (tell_completed id to o)
  unfolding tell_completed
  tell_completed-IsProjected id to o = search (steps, tell_parent-IsProjected)

  transition-IsProjected : (id : ℕ) (to : AgentState) → Keeps IsProjected (transition id to)
  unfolding transition
  transition-IsProjected id to = search (steps, tell_completed-IsProjected) depth 8

  ruleset operations =
      (steps, tell_parent-IsProjected, tell_completed-IsProjected, transition-IsProjected)

  create_with_parent-IsProjected :
      (ws : ℕ) (o : Option ℕ) (objective : String) (b : Budget)
      → Keeps IsProjected (create_with_parent ws o objective b)
  unfolding create_with_parent
  create_with_parent-IsProjected ws o objective b = search operations depth 8

  create_child-IsProjected :
      (id : ℕ) (objective : String) (b : Budget) → Keeps IsProjected (create_child id objective b)
  unfolding create_child
  create_child-IsProjected id objective b = search (operations, create_with_parent-IsProjected)

  set_pending_signal-IsProjected :
      (id : ℕ) (signal : ControlSignal) → Keeps IsProjected (set_pending_signal id signal)
  unfolding set_pending_signal
  set_pending_signal-IsProjected id signal = search operations

  restore-IsProjected : (id : ℕ) (o : Option ControlSignal) → Keeps IsProjected (restore id o)
  restore-IsProjected id none = search operations
  restore-IsProjected id (some signal) = set_pending_signal-IsProjected id signal

  recover_task-IsProjected : (id : ℕ) (note : String) → Keeps IsProjected (recover_task id note)
  unfolding recover_task
  recover_task-IsProjected id note = search (operations, restore-IsProjected) depth 8

  recover_task_if_active-IsProjected :
      (id : ℕ) (note : AgentState → String) → Keeps IsProjected (recover_task_if_active id note)
  unfolding recover_task_if_active
  recover_task_if_active-IsProjected id note = search (operations, recover_task-IsProjected) depth 8

  recover_row-IsProjected :
      (note : AgentState → String) (r : Row) (o : Option AgentState) (later : Exec V (List ℕ))
      → Keeps IsProjected later
      → Keeps IsProjected (recover_row note r o later)
  unfolding recover_row
  recover_row-IsProjected note r none later k = k
  recover_row-IsProjected note r (some s) later k =
      Keeps-branch (is_stable_without_a_driver s) later _ k (
        Keeps-bind (recover_task r.id (note s)) _ (recover_task-IsProjected r.id (note s))
          (λ u. Keeps-bind later _ k (λ ids. Keeps-pure (r.id ∷ ids))))

  recover_rows-IsProjected :
      (note : AgentState → String) (rs : List Row)
      → Keeps {V = V} IsProjected (recover_rows note rs)
  unfolding recover_rows
  recover_rows-IsProjected note [] = search operations
  recover_rows-IsProjected note (r ∷ rs) =
      recover_row-IsProjected note r (state_from_text r.state) (recover_rows note rs)
        (recover_rows-IsProjected note rs)

  recover_incomplete_tasks-IsProjected :
      (note : AgentState → String) → Keeps {V = V} IsProjected (recover_incomplete_tasks note)
  unfolding recover_incomplete_tasks
  recover_incomplete_tasks-IsProjected note = search (operations, recover_rows-IsProjected)

  step-IsProjected : (w : World V) (c : Call V) → IsProjected w → IsProjected (step w c)
  unfolding step
  step-IsProjected w (creates ws o b) p = (create_with_parent-IsProjected ws none o b).holds w p
  step-IsProjected w (creates_child id o b) p = (create_child-IsProjected id o b).holds w p
  step-IsProjected w (transitions id to) p = (transition-IsProjected id to).holds w p
  step-IsProjected w (appends id kind) p = (append_journal-IsProjected id kind).holds w p
  step-IsProjected w (signals id s) p = (set_pending_signal-IsProjected id s).holds w p
  step-IsProjected w (recovers id note) p = (recover_task_if_active-IsProjected id note).holds w p
  step-IsProjected w (starts note) p = (recover_incomplete_tasks-IsProjected note).holds w p

  -- Take a world whose event log is the projection of its journal, entry by entry, and whose
  -- journal is numbered 1, 2, 3, … with no gap. Any sequence of calls, failing ones included, leads
  -- to such a world.
  pub run-IsProjected : (w : World V) (cs : List (Call V)) → IsProjected w → IsProjected (run w cs)
  unfolding run
  run-IsProjected w [] p = p
  run-IsProjected w (c ∷ cs) p = run-IsProjected (step w c) cs (step-IsProjected w c p)
