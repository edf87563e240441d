-- ===== src/Task/Manager/Transition.antt =====
-- `transition` of crates/valyria-task/src/manager.rs, on every branch.
use valyria.Common.{
  subst, ==_iff, ℕ, ◌≡◌, refl, ◌≢◌, inl, inr, String, Option, none, some, arith, ◌==◌, nat_eq,
  if◌then◌else◌, Bool-cases,
}
use valyria.State.{AgentState, paused, is_terminal, state_eq}
use valyria.Task.Types.{Json, Task, TaskError}
use valyria.Task.Codec.{state_from_text-state_to_text}
use valyria.Task.World.{Row, World, ok, err, find_row, update_row, find_row-update_row}
use valyria.Task.Rows.{Reads, world-get, decode, get}
use valyria.Task.Manager.{transition_refusal, set_state, tell_parent, tell_completed, transition}

module _ {V : Type 0} ⦃j : Json V⦄ where
  tell_parent_ok :
      (o : Option ℕ) (kind : String) (v : V) (w : World V) → (tell_parent o kind v w).0 ≡ ok tt
  unfolding tell_parent
  tell_parent_ok none kind v w = refl
  tell_parent_ok (some p) kind v w = refl

  tasks-tell_parent :
      (o : Option ℕ) (kind : String) (v : V) (w : World V)
      → (tell_parent o kind v w).1.tasks ≡ w.tasks
  unfolding tell_parent
  tasks-tell_parent none kind v w = refl
  tasks-tell_parent (some p) kind v w = refl

  tell_completed_ok :
      (id : ℕ) (to : AgentState) (o : Option ℕ) (w : World V)
      → ((tell_completed id to o w).0 ≡ ok tt) × ((tell_completed id to o w).1.tasks ≡ w.tasks)
  unfolding tell_completed
  tell_completed_ok id to o w = elim (Bool-cases (is_terminal to)) [
    | inl t ↦ rw t (tell_parent_ok o _ _ w, tasks-tell_parent o _ _ w)
    | inr f ↦ rw f (refl, refl)
  ]

  -- A refused transition of a task that can be read changes nothing, and answers with the reason.
  pub transition_refused :
      (id : ℕ) (to : AgentState) (w : World V) (task : Task) (e : TaskError)
      → Reads w id task
      → transition_refusal task to ≡ some e
      → transition id to w ≡ (err e, w)
  unfolding transition
  transition_refused id to w task e h r = ground (arith, world-get id w)

  pub transition_missing :
      (id : ℕ) (to : AgentState) (w : World V) (e : TaskError)
      → (get id w).0 ≡ err e
      → transition id to w ≡ (err e, w)
  unfolding transition
  transition_missing id to w e h = ground (arith, world-get id w)

  pub transition_done :
      (id : ℕ) (to : AgentState) (w : World V) (task : Task)
      → Reads w id task
      → transition_refusal task to ≡ none
      → ((transition id to w).0 ≡ ok tt)
        × ((transition id to w).1.tasks
            ≡ update_row id (set_state task to (w.env.clock w.reads)) w.tasks)
  unfolding transition
  transition_done id to w task h r =
      rw (h, world-get id w, r) (tell_completed_ok id to task.parent_task _)

-- What a task looks like after a change of state.
abbrev pub moved : Task → AgentState → ℕ → Task
moved task to at = record task {
  state = to;
  paused_from = if to == paused then some task.state else none;
  updated_at = at;
  completed_at = if is_terminal to then some at else task.completed_at;
  pending_signal = none;
}

decode-set_state :
    (id : ℕ) (r : Row) (task : Task) (to : AgentState) (at : ℕ)
    → decode id (some r) ≡ ok task
    → decode id (some (set_state task to at r)) ≡ ok (moved task to at)
unfolding set_state
decode-set_state id r task to at h =
    ground (arith, state_from_text-state_to_text to, state_from_text-state_to_text task.state)

-- The row of the task that is asked for.
pub row_of :
    (id : ℕ) (o : Option Row) (task : Task)
    → decode id o ≡ ok task
    → (r : Row) × (o ≡ some r) × (decode id (some r) ≡ ok task)
row_of id none task h = cc
row_of id (some r) task h = (r, refl, h)

module _ {V : Type 0} ⦃j : Json V⦄ where
  -- Of the task itself, and of another.
  pub transition_accepted :
      (id : ℕ) (to : AgentState) (w : World V) (task : Task)
      → Reads w id task
      → transition_refusal task to ≡ none
      → ((transition id to w).0 ≡ ok tt)
        × Reads (transition id to w).1 id (moved task to (w.env.clock w.reads))
        × ((other : ℕ) → id ≢ other → (get other (transition id to w).1).0 ≡ (get other w).0)
  unfolding get
  transition_accepted id to w task h r =
      let done = transition_done id to w task h r in
      let at = w.env.clock w.reads in
      let found = λ (other : ℕ).
        find_row-update_row id other (set_state task to at) w.tasks
          (λ x. unfold set_state in refl) in
      let (row, here, reads) = row_of id (find_row id w.tasks) task h in
      (
        done.0,
        rw done.1 (rw (found id) (ground (arith, decode-set_state id row task to at reads))),
        λ other n. rw done.1 (ground (arith, found other)),
      )

  -- An accepted transition of a task that can be read gives it its new state: where it was paused
  -- from is kept exactly when it is now paused, the completion time is set to the clock's reading
  -- when the state is terminal, a pending signal is gone, and no other task's record changes.
  pub get-transition :
      (id other : ℕ) (to : AgentState) (w : World V) (task : Task)
      → Reads w id task
      → transition_refusal task to ≡ none
      → ((transition id to w).0 ≡ ok tt)
        × ((get other (transition id to w).1).0
            ≡ (if id == other then ok (moved task to (w.env.clock w.reads)) else (get other w).0))
  get-transition id other to w task h r =
      let (answer, self, others) = transition_accepted id to w task h r in
      (
        answer,
        elim (Bool-cases (id == other)) [
          | inl same ↦ rw same (
              subst (λ k. Reads (transition id to w).1 k (moved task to (w.env.clock w.reads)))
                ((==_iff id other).0 same) self)
          | inr differ ↦ rw differ (others other (λ e. cc (differ, (==_iff id other).1 e)))
        ],
      )
