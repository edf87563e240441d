-- ===== src/Task/Manager/Recovery.antt =====
-- Crash recovery of one task: `recover_task_if_active` of crates/valyria-task/src/manager.rs.
use valyria.Common.{
  not, if◌then◌else◌, Bool-cases, inl, inr, ℕ, ◌+◌, ◌≡◌, refl, ◌∙◌, ap, ◌≢◌, false, String, Option,
  none, some, List, arith, nat_eq,
}
use valyria.State.{AgentState, paused, is_terminal, state_eq}
use valyria.Task.Types.{Json, Task, ControlSignal, recovery_note}
use valyria.Task.Codec.{signal_to_text, signal_from_text-signal_to_text}
use valyria.Task.World.{Row, World, ok, ◌>>=◌, find_row, update_row, find_row-update_row}
use valyria.Task.Rows.{Reads, world-get, decode, get}
use valyria.Task.Append.{append_journal}
use valyria.Task.Manager.{
  update, set_pending_signal, restore, recover_task, recover_task_if_active,
  is_stable_without_a_driver,
}
use valyria.Task.Manager.Transition.{moved, row_of, transition_accepted}
use valyria.Task.Manager.Lifecycle.{transition_refusal-none, pause_edges}

-- An update of one row, read back.
decode-update_row :
    (id : ℕ) (f : Row → Row) (rows : List Row) (task task' : Task)
    → ((r : Row) → (f r).id ≡ r.id)
    → ((r : Row) → decode id (some r) ≡ ok task → decode id (some (f r)) ≡ ok task')
    → decode id (find_row id rows) ≡ ok task
    → decode id (find_row id (update_row id f rows)) ≡ ok task'
decode-update_row id f rows task task' keeps reads h =
    let (row, here, there) = row_of id (find_row id rows) task h in
    rw (find_row-update_row id id f rows keeps) (ground (arith, reads row there))

-- An active state is open and is not `Paused`.
pub active_is_open :
    (s : AgentState) → is_stable_without_a_driver s ≡ false → (is_terminal s ≡ false) × (s ≢ paused)
unfolding is_stable_without_a_driver
active_is_open s h = (ground arith, λ p. ground arith)

abbrev noted : Task → String → Task
noted task note = record task { recovery_note = some note }

-- The task as recovery leaves it.
abbrev pub recovered : Task → String → ℕ → Task
recovered task note at = record (moved (noted task note) paused at) {
  pending_signal = task.pending_signal;
}

module _ {V : Type 0} ⦃j : Json V⦄ where
  Reads-update :
      (id : ℕ) (f : Row → Row) (w w' : World V) (task task' : Task)
      → Reads w id task
      → ((r : Row) → (f r).id ≡ r.id)
      → ((r : Row) → decode id (some r) ≡ ok task → decode id (some (f r)) ≡ ok task')
      → w'.tasks ≡ update_row id f w.tasks
      → Reads w' id task'
  unfolding get
  Reads-update id f w w' task task' h keeps reads e =
      rw e (decode-update_row id f w.tasks task task' keeps reads h)

  set_pending_signal_done :
      (id : ℕ) (signal : ControlSignal) (w : World V) (task : Task)
      → Reads w id task
      → ((set_pending_signal id signal w).0 ≡ ok tt)
        × Reads (set_pending_signal id signal w).1 id (record task { pending_signal = some signal })
  unfolding set_pending_signal
  set_pending_signal_done id signal w task h =
      rw (h, world-get id w)
        (refl, Reads-update id _ w _ task _ h (λ r. refl) (λ r d. signalled r d) refl)
    where
      signalled :
          (r : Row)
          → decode id (some r) ≡ ok task
          → decode id (some (record r { pending_signal = some (signal_to_text signal) }))
            ≡ ok (record task { pending_signal = some signal })
      signalled r d = ground (arith, signal_from_text-signal_to_text signal)

  restore_done :
      (id : ℕ) (o : Option ControlSignal) (w : World V) (task : Task)
      → Reads w id task
      → task.pending_signal ≡ none
      → ((restore id o w).0 ≡ ok tt)
        × Reads (restore id o w).1 id (record task { pending_signal = o })
  unfolding ◌>>=◌
  restore_done id none w task h e = (refl, h ∙ ap ok (λ i. record task { pending_signal = e i }))
  restore_done id (some signal) w task h e = set_pending_signal_done id signal w task h

  set_pending_signal_others :
      (id other : ℕ) (signal : ControlSignal) (w : World V) (task : Task)
      → Reads w id task
      → id ≢ other
      → (get other (set_pending_signal id signal w).1).0 ≡ (get other w).0
  unfolding set_pending_signal get
  set_pending_signal_others id other signal w task h n = rw h (
      ground (
        arith,
        find_row-update_row id other
            (λ r. record r { pending_signal = some (signal_to_text signal) }) w.tasks (λ r. refl),
      ))

  restore_others :
      (id other : ℕ) (o : Option ControlSignal) (w : World V) (task : Task)
      → Reads w id task
      → id ≢ other
      → (get other (restore id o w).1).0 ≡ (get other w).0
  unfolding ◌>>=◌
  restore_others id other none w task h n = refl
  restore_others id other (some signal) w task h n =
      set_pending_signal_others id other signal w task h n

  -- The world when recovery has written its note.
  abbrev noted_world : ℕ → String → World V → World V
  noted_world id note w =
      (append_journal id (recovery_note note)
        (update id (λ r. record r { recovery_note = some note }) w).1).1

  noted_others :
      (id other : ℕ) (note : String) (w : World V)
      → id ≢ other
      → (get other (noted_world id note w)).0 ≡ (get other w).0
  unfolding get update append_journal
  noted_others id other note w n = ground (
    arith,
    find_row-update_row id other (λ r. record r { recovery_note = some note }) w.tasks (λ r. refl),
  )

  pub recover_task_done :
      (id : ℕ) (note : String) (w : World V) (task : Task)
      → Reads w id task
      → is_stable_without_a_driver task.state ≡ false
      → ((recover_task id note w).0 ≡ ok tt)
        × Reads (recover_task id note w).1 id (recovered task note (w.env.clock (w.reads + 1)))
  unfolding recover_task
  recover_task_done id note w task h a =
      let w' = noted_world id note w in
      let marked : Reads w' id (noted task note) =
        Reads-update id _ w w' task _ h (λ r. refl) (λ r d. ground arith) refl in
      let (open_state, not_paused) = active_is_open task.state a in
      let edge = (pause_edges task.state open_state not_paused).0 in
      let free =
        (transition_refusal-none (noted task note) paused).1 (edge, λ q. absurd (not_paused q)) in
      let (paused_ok, paused_reads, _) = transition_accepted id paused w' _ marked free in
      rw (h, world-get id w)
        (rw paused_ok (restore_done id task.pending_signal _ _ paused_reads refl))

  -- What recovery of one task does to every other.
  pub recover_task_others :
      (id other : ℕ) (note : String) (w : World V) (task : Task)
      → Reads w id task
      → is_stable_without_a_driver task.state ≡ false
      → id ≢ other
      → (get other (recover_task id note w).1).0 ≡ (get other w).0
  unfolding recover_task
  recover_task_others id other note w task h a n =
      let w' = noted_world id note w in
      let marked : Reads w' id (noted task note) =
        Reads-update id _ w w' task _ h (λ r. refl) (λ r d. ground arith) refl in
      let (open_state, not_paused) = active_is_open task.state a in
      let edge = (pause_edges task.state open_state not_paused).0 in
      let free =
        (transition_refusal-none (noted task note) paused).1 (edge, λ q. absurd (not_paused q)) in
      let (paused_ok, paused_reads, untouched) = transition_accepted id paused w' _ marked free in
      rw (h, world-get id w)
        (rw paused_ok (
          restore_others id other task.pending_signal _ _ paused_reads n
          ∙ untouched other n
          ∙ noted_others id other note w n))

  -- Recovery of a task that can be read leaves it alone if it is at rest. An active one it pauses
  -- where it stood, with a note, and a pause or cancel request that was waiting for its driver
  -- still waits. The answer says which was the case.
  pub recover_task_if_active_lem :
      (id : ℕ) (note : AgentState → String) (w : World V) (task : Task)
      → Reads w id task
      → let at_rest = is_stable_without_a_driver task.state in
        let run = recover_task_if_active id note w in
        (run.0 ≡ ok (not at_rest))
        × Reads run.1 id
            (if at_rest then task else recovered task (note task.state) (w.env.clock (w.reads + 1)))
  unfolding recover_task_if_active
  recover_task_if_active_lem id note w task h =
      elim (Bool-cases (is_stable_without_a_driver task.state)) [
        | inl s ↦ rw (h, world-get id w, s) (refl, h)
        | inr a ↦
            let done = recover_task_done id (note task.state) w task h a in
            rw (h, world-get id w, a) (rw done.0 (refl, done.1))
      ]
