-- ===== src/Task/Manager/WellFormed.antt =====
-- What holds of every stored task between two calls of crates/valyria-task/src/manager.rs.
use valyria.Common.{
  ℕ, ◌≡◌, refl, ◌≢◌, subst, ◌⊎◌, inl, inr, true, false, String, Option, none, some, List, [], ◌∷◌,
  arith, ◌==◌, nat_eq, is_some, if◌then◌else◌, Bool-cases, All,
}
use valyria.State.{
  AgentState, idle, paused, is_terminal, can_transition_to, state_eq, state_eqb_iff,
}
use valyria.State.Graph.{can_transition_to_self}
use valyria.Task.Types.{Json, Task, TaskError}
use valyria.Task.Codec.{state_to_text, state_from_text, state_from_text-state_to_text}
use valyria.Task.World.{Row, World, Result, ok, err, find_row, update_row}
use valyria.Task.Rows.{Reads, task_of, get}
use valyria.Task.Manager.{set_state, transition_refusal, transition}
use valyria.Task.Manager.Transition.{
  row_of, transition_refused, transition_missing, transition_done,
}
use valyria.Task.Manager.Lifecycle.{transition_refusal-none}

-- A task remembers where it was paused from exactly while it is paused, and that state is open;
-- it has a completion time exactly when its state is terminal.
pub record IsWellFormed (task : Task) : Type 0 where
  pub paused_somewhere :
      task.state ≡ paused
      → (s : AgentState) × (task.paused_from ≡ some s) × (is_terminal s ≡ false) × (s ≢ paused)
  pub otherwise_not : task.state ≢ paused → task.paused_from ≡ none
  pub completed_when_terminal : is_some task.completed_at ≡ is_terminal task.state

-- A row that reads as a well-formed task.
abbrev pub RowOk : Row → Type 0
RowOk r = (s : AgentState) × (state_from_text r.state ≡ some s) × IsWellFormed (task_of r s)

open_of_edge : (s to : AgentState) → can_transition_to s to ≡ true → is_terminal s ≡ false
unfolding can_transition_to
open_of_edge s to h = ground arith

-- The row that an accepted transition writes, whatever the row was.
set_state-RowOk :
    (task : Task) (to : AgentState) (at : ℕ) (r : Row)
    → IsWellFormed task
    → transition_refusal task to ≡ none
    → RowOk (set_state task to at r)
unfolding set_state
set_state-RowOk task to at r wf free =
    let (edge, _) = (transition_refusal-none task to).0 free in
    let open_state = open_of_edge task.state to edge in
    let from = state_from_text-state_to_text task.state in
    (
      to,
      state_from_text-state_to_text to,
      record {
        paused_somewhere = λ p. (
          task.state,
          ground (arith, state_eqb_iff to paused),
          open_state,
          λ q. cc (edge, p, q, can_transition_to_self paused),
        );
        otherwise_not = λ n. ground (arith, state_eqb_iff to paused);
        completed_when_terminal = ground (arith, wf.completed_when_terminal);
      },
    )

pub All-update_row :
    (id : ℕ) (f : Row → Row) (rows : List Row)
    → ((r : Row) → RowOk r → RowOk (f r))
    → All RowOk rows
    → All RowOk (update_row id f rows)
All-update_row id f [] k h = tt
All-update_row id f (r ∷ rs) k h = (either (Bool-cases (r.id == id)), All-update_row id f rs k h.1)
  where
    either : ((r.id == id) ≡ true) ⊎ ((r.id == id) ≡ false) → RowOk (if r.id == id then f r else r)
    either (inl e) = rw e (k r h.0)
    either (inr e) = rw e h.0

find_row-RowOk :
    (id : ℕ) (rows : List Row) (r : Row) → All RowOk rows → find_row id rows ≡ some r → RowOk r
find_row-RowOk id [] r h e = cc
find_row-RowOk id (x ∷ xs) r h e = elim (Bool-cases (x.id == id)) [
  | inl hit ↦ let same : x ≡ r = ground arith in subst RowOk same h.0
  | inr miss ↦ find_row-RowOk id xs r h.1 (rw miss at e)
]

-- The columns that only label a task do not matter.
pub label_RowOk :
    (r : Row) (text signal : Option String)
    → RowOk r
    → RowOk (record r { recovery_note = text; pending_signal = signal })
label_RowOk r text signal (state, reads, wf) = (
  state,
  reads,
  record {
    paused_somewhere = wf.paused_somewhere;
    otherwise_not = wf.otherwise_not;
    completed_when_terminal = wf.completed_when_terminal;
  },
)

pub new_RowOk :
    (r : Row)
    → r.state ≡ state_to_text idle
    → r.paused_from ≡ none
    → r.completed_at_ms ≡ none
    → RowOk r
unfolding is_terminal
new_RowOk r s p c = (
  idle,
  rw s (state_from_text-state_to_text idle),
  record {
    paused_somewhere = λ q. cc;
    otherwise_not = λ _. ground arith;
    completed_when_terminal = ground arith;
  },
)

-- All rows of the table are well-formed tasks.
abbrev pub IsSound : {V : Type 0} → World V → Type 0
IsSound w = All RowOk w.tasks

module _ {V : Type 0} ⦃j : Json V⦄ where
  -- A task that can be read from a sound table is well formed.
  pub Reads-IsWellFormed :
      (w : World V) (id : ℕ) (task : Task) → IsSound w → Reads w id task → IsWellFormed task
  unfolding get
  Reads-IsWellFormed w id task s h =
      let (row, found, reads) = row_of id (find_row id w.tasks) task h in
      let (state, here, wf) = find_row-RowOk id w.tasks row s found in
      let same : task_of row state ≡ task = ground arith in subst IsWellFormed same wf

  pub transition-IsSound :
      (id : ℕ) (to : AgentState) (w : World V) → IsSound w → IsSound (transition id to w).1
  transition-IsSound id to w s = from (get id w).0 refl
    where
      step :
          (task : Task)
          → Reads w id task
          → (o : Option TaskError) → transition_refusal task to ≡ o
          → IsSound (transition id to w).1
      step task h (some e) r = rw (transition_refused id to w task e h r) s
      step task h none r = rw ((transition_done id to w task h r).1) (
          All-update_row id _ w.tasks
            (λ row _. set_state-RowOk task to _ row (Reads-IsWellFormed w id task s h) r) s)

      from : (r : Result Task) → (get id w).0 ≡ r → IsSound (transition id to w).1
      from (err e) h = rw (transition_missing id to w e h) s
      from (ok task) h = step task h (transition_refusal task to) refl
